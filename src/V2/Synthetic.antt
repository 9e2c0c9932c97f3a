-- ===== src/V2/Synthetic.antt =====
-- ml/v2/synthetic_data.py: `SyntheticDataGenerator`. A call takes the state of the random generator and
-- gives the state after it. `none` is a call that does not end.
pub mod Output
pub mod Expected
pub mod Saved
pub mod Reread
pub mod SaveToJson
pub mod RoundTrip
pub mod Generate
use Prim.Native.Nat.{zero, suc}
use smart_hpa.Prelude.{
  first_error, unless_error, String, range, ◌++◌, traverse, and_then, zip, ℕ, ◌+◌, ◌*◌, Bool, ◌&&◌,
  List, [], ◌∷◌, map, Option, none, some, Result, ok, raise, ◌>>=◌, ltb, leb, ◌==◌, if◌then◌else◌,
}
use smart_hpa.Prelude.Int.{ℤ, pos, negsuc, ◌+ℤ◌, max_ℤ}
use smart_hpa.Prelude.Text.{int_text}
use smart_hpa.Json.{Json, str, num, object, array}
use smart_hpa.Float.{Float}
use smart_hpa.Host.{Host}
use smart_hpa.Clock.{hour, weekday, days, minutes, add_delta, sub_delta, ticks}

pub record SyntheticConfig (F : Type 0) : Type 0 where
  pub days : ℕ
  pub step_minutes : ℕ
  pub peak_start_hour : ℕ
  pub peak_end_hour : ℕ
  pub peak_min_replicas : ℤ
  pub peak_max_replicas : ℤ
  pub peak_burst_max : ℤ
  pub peak_burst_probability : F
  pub offpeak_min_replicas : ℤ
  pub offpeak_max_replicas : ℤ
  pub weekend_min_replicas : ℤ
  pub weekend_max_replicas : ℤ
  pub noise_std : F
  pub seed : Option ℕ

-- `SyntheticConfig()`, with its defaults.
abbrev pub synthetic_config : {F : Type 0} ⦃f : Float F⦄ → SyntheticConfig F
synthetic_config ⦃f⦄ = record {
  days = 30;
  step_minutes = 5;
  peak_start_hour = 9;
  peak_end_hour = 17;
  peak_min_replicas = pos 3;
  peak_max_replicas = pos 6;
  peak_burst_max = pos 15;
  peak_burst_probability = f.literal 5 2;
  offpeak_min_replicas = pos 1;
  offpeak_max_replicas = pos 3;
  weekend_min_replicas = pos 1;
  weekend_max_replicas = pos 3;
  noise_std = f.literal 3 1;
  seed = some 42;
}

-- A row of the data frame.
pub record Row (F : Type 0) : Type 0 where
  pub timestamp : ℕ
  pub replicas : F
  pub hour : ℕ
  pub day_of_week : ℕ
  pub is_weekend : Bool
  pub is_peak : Bool

pub record Dataset (F : Type 0) : Type 0 where
  pub unix_timestamps : List F
  pub replicas : List F
  pub rows : List (Row F)

-- `_is_peak_hour`
unfoldable pub is_peak_hour : {F : Type 0} → SyntheticConfig F → ℕ → Bool
is_peak_hour config ts =
    ltb (weekday ts) 5
    && (leb config.peak_start_hour (hour ts) && ltb (hour ts) config.peak_end_hour)

unfoldable pub row : {F : Type 0} → SyntheticConfig F → ℕ → F → Row F
unfolding is_peak_hour
row config ts replicas = record {
  timestamp = ts;
  replicas = replicas;
  hour = hour ts;
  day_of_week = weekday ts;
  is_weekend = leb 5 (weekday ts);
  is_peak = is_peak_hour config ts;
}

unfoldable pub rows : {F : Type 0} → SyntheticConfig F → List ℕ → List F → List (Row F)
unfolding row
rows config (ts ∷ timestamps) (r ∷ replicas) = row config ts r ∷ rows config timestamps replicas
rows config _ _ = []

-- `while current < end_date`: one turn for each minute of the days is enough.
unfoldable pub timestamps_of : {F : Type 0} → SyntheticConfig F → ℕ → Option (Result (List ℕ))
unfolding ticks add_delta
timestamps_of config start =
    and_then (some (add_delta start (days config.days)))
      λ end. ticks (suc (config.days * 1440)) end (minutes config.step_minutes) start

-- `start_date`, or the configured number of days before `now`, the value of `datetime.utcnow()`.
unfoldable pub start_or_now : {F : Type 0} → SyntheticConfig F → ℕ → Option ℕ → Result ℕ
unfolding sub_delta
start_or_now config now none = sub_delta now (days config.days)
start_or_now config now (some start) = ok start

module _ {F : Type 0} {S : Type 0} ⦃f : Float F⦄ (host : Host F S) where
  open host use {uniform, normal, random, randint, round, timestamp_error, timestamp}

  -- `if self.config.seed is not None: np.random.seed(self.config.seed)`
  unfoldable pub seeded : SyntheticConfig F → S → Result (SyntheticConfig F × S)
  seeded config s = elim config.seed [
    | none ↦ ok (config, s)
    | some n ↦ host.seed (some n) s >>= λ s'. ok (config, s')
  ]

  -- `SyntheticDataGenerator(config)`
  unfoldable pub new_generator : Option (SyntheticConfig F) → S → Result (SyntheticConfig F × S)
  unfolding seeded
  new_generator none s = seeded synthetic_config s
  new_generator (some config) s = seeded config s

  -- `max(least, int(round(base + noise)))`
  unfoldable pub with_noise : SyntheticConfig F → ℤ → F × S → Result (ℤ × S)
  with_noise config least base = do
    noise ← normal (f.literal 0 0) config.noise_std base.1
    count ← round (f.add base.0 noise.0)
    ok (max_ℤ least count, noise.1)

  -- A burst takes the place of the count of replicas, with some probability.
  unfoldable pub burst : SyntheticConfig F → F × S → Result (F × S)
  burst config base =
      let chance = random base.1 in
      if f.lt chance.0 config.peak_burst_probability
      then uniform (f.literal 10 0) (f.of_int config.peak_burst_max) chance.1
      else ok (base.0, chance.1)

  unfoldable pub between : ℤ → ℤ → S → Result (F × S)
  between low high s = uniform (f.of_int low) (f.of_int high) s

  -- `_get_replica_count`
  unfoldable pub get_replica_count : SyntheticConfig F → ℕ → S → Result (ℤ × S)
  unfolding is_peak_hour with_noise burst between
  get_replica_count config ts s =
      if leb 5 (weekday ts)
      then (do
        base ← between config.weekend_min_replicas config.weekend_max_replicas s
        with_noise config (pos 1) base)
      else if is_peak_hour config ts
      then (do
        base ← between config.peak_min_replicas config.peak_max_replicas s
        base' ← burst config base
        with_noise config config.peak_min_replicas base')
      else (do
        base ← between config.offpeak_min_replicas config.offpeak_max_replicas s
        with_noise config (pos 1) base)

  -- `replicas[i] = self._get_replica_count(ts)` for each time.
  unfoldable pub replica_counts : SyntheticConfig F → List ℕ → S → Result (List F × S)
  unfolding get_replica_count
  replica_counts config [] s = ok ([], s)
  replica_counts config (ts ∷ timestamps) s = do
    count ← get_replica_count config ts s
    rest ← replica_counts config timestamps count.1
    ok (f.of_int count.0 ∷ rest.0, rest.1)

  unfoldable pub dataset : SyntheticConfig F → List ℕ → S → Result (Dataset F × S)
  unfolding replica_counts rows
  dataset config timestamps s = do
    counted ← replica_counts config timestamps s
    unless_error (first_error timestamp_error timestamps) (
      record {
        unix_timestamps = map timestamp timestamps;
        replicas = counted.0;
        rows = rows config timestamps counted.0;
      },
      counted.1,
    )

  unfoldable pub generate_from : SyntheticConfig F → ℕ → S → Option (Result (Dataset F × S))
  unfolding timestamps_of dataset
  generate_from config start s =
      and_then (timestamps_of config start) λ timestamps. some (dataset config timestamps s)

  unfoldable pub generate : SyntheticConfig F → ℕ → Option ℕ → S → Option (Result (Dataset F × S))
  unfolding start_or_now generate_from
  generate config now start_date s =
      and_then (some (start_or_now config now start_date)) λ start. generate_from config start s

-- ===== src/Scheduler/ReadBack.antt =====
-- The dictionary of a trigger of ml/v2/config.py, as the scheduler reads it.
use smart_hpa.Prelude.{ℕ, ◌+◌, ◌<◌, ◌≡◌, refl, true, false, some, arith}
use smart_hpa.Prelude.Int.{ℤ, pos, negsuc, ◌≤ℤ◌, max_ℤ, max_ℤ_bounds, max_ℤ_least}
use smart_hpa.V2.Config.{TriggerConfig, to_dict}
use smart_hpa.Scheduler.{Trigger}
use smart_hpa.Scheduler.Decode.{is_integer_below, int64_limit, decode_trigger}

-- The trigger that the scheduler reads.
abbrev pub read_back : {F : Type 0} → TriggerConfig F → Trigger
read_back t = record {
  name = t.name;
  priority = some (pos t.priority);
  timezone = t.timezone;
  interval = some (record { recurring = t.recurring; start_date = ""; end_date = "" });
  start_time = t.start_time;
  end_time = t.end_time;
  start_hpa_config =
      some (record { min_replicas = some t.min_replicas; max_replicas = some t.max_replicas });
  end_hpa_config =
      some (record {
        min_replicas = some (pos 1);
        max_replicas = some (max_ℤ (pos 2) t.min_replicas);
      });
  suspend = false;
}

integer_below-eq :
    (limit : ℕ) (n : ℤ) → pos 0 ≤ℤ n → n ≤ℤ pos limit → is_integer_below (limit + 1) n ≡ true
integer_below-eq limit (pos n) a b = ground arith
integer_below-eq limit (negsuc n) a b = absurd (omega arith)

-- A trigger with a priority of 64 bits, and replicas that are not negative and have 32 bits, is read
-- back from its dictionary.
pub decode_trigger-to_dict :
    {F : Type 0} (t : TriggerConfig F)
    → t.priority < int64_limit
    → pos 0 ≤ℤ t.min_replicas
    → t.min_replicas ≤ℤ t.max_replicas
    → t.max_replicas ≤ℤ pos 2_147_483_647
    → decode_trigger (to_dict t) ≡ some (read_back t)
unfolding decode_trigger to_dict
decode_trigger-to_dict t p a b c =
    let (two, more) = max_ℤ_bounds (pos 2) t.min_replicas in
    let least =
      max_ℤ_least (pos 2) t.min_replicas (pos 2_147_483_647) (omega arith) (omega (arith, b, c)) in
    let first : is_integer_below int64_limit (pos t.priority) ≡ true = ground arith in
    let low = integer_below-eq 2_147_483_647 t.min_replicas a (omega (arith, b, c)) in
    let high = integer_below-eq 2_147_483_647 t.max_replicas (omega (arith, a, b)) c in
    let end =
      integer_below-eq 2_147_483_647 (max_ℤ (pos 2) t.min_replicas) (omega (arith, two)) least in
    rw (first, low, high, end) refl

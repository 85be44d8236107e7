-- ===== src/Backup/Settings.antt =====
-- Policies of the backup: `validate` and `defaultPolicies` of ui/backend/internal/backup/model.go
-- and `Save` of manager.go.
use ldapium.Prelude.{
  ℕ, ◌+◌, ◌*◌, Bool, false, ◌&&◌, ◌||◌, not, Option, none, some, List, [], ◌∷◌, String, ltb,
  if◌then◌else◌, length,
}
use ldapium.Prelude.Bytes.{Bytes, codes}
use ldapium.Prelude.Eq.{bytes_eq, text_eq, nat_eq, ◌==◌}
use ldapium.Prelude.Assoc.{put}
use ldapium.Backup.{minute, Policy, Policies, State}
use ldapium.Backup.Records.{has_id}
use ldapium.Backup.Manager.{Manager, state_of}

abbrev pub default_policies : Policies
default_policies = record {
  revision = 0;
  data_policy = record {
    enabled = false;
    interval_minutes = 1440;
    keep_days = 30;
    keep_count = 30;
    destinations = codes "local" ∷ [];
  };
  logs_policy = record {
    enabled = false;
    interval_minutes = 60;
    keep_days = 7;
    keep_count = 168;
    destinations = codes "local" ∷ [];
  };
}

-- The loop over the destinations of a policy: whether each is registered and new, and `seen`.
unfoldable pub select_destinations : List Bytes → List Bytes → List Bytes → Option (List Bytes)
unfolding has_id
select_destinations registered seen [] = some seen
select_destinations registered seen (id ∷ selected) =
    let rest = select_destinations registered (id ∷ seen) selected in
    if not (has_id id registered) || has_id id seen then none else rest

out_of_bounds : Policy → Bool
out_of_bounds p =
    ltb p.interval_minutes 1
    || ltb 525600 p.interval_minutes
    || ltb p.keep_days 1
    || ltb 3650 p.keep_days
    || ltb p.keep_count 1
    || ltb 10000 p.keep_count

-- `validate`, over the identifiers of the registered destinations.
unfoldable pub validate : Policy → List Bytes → Option String
unfolding select_destinations out_of_bounds has_id
validate p registered =
    if out_of_bounds p
    then some "invalid interval or retention bounds"
    else if length p.destinations == 0 || ltb 20 (length p.destinations)
    then some "select 1–20 registered destinations"
    else elim (select_destinations registered [] p.destinations) [
      | none ↦ some "unknown or duplicate destination"
      | some seen ↦
          if has_id (codes "local") seen then none else some "local backup destination is required"
    ]

pub data Saving : Type 0 where
  saved : Policies → Saving
  invalid_policy : (message : String) → Saving
  logs_not_registered conflict manager_busy not_saved : Saving

abbrev scheduled_next : ℕ → Policy → Policy → State → ℕ
scheduled_next now old new st =
    if not new.enabled
    then 0
    else if not old.enabled
        || not (old.interval_minutes == new.interval_minutes)
        || st.next_run == 0
    then now + new.interval_minutes * minute
    else st.next_run

reschedule : ℕ → Policies → Manager → List (String × State)
reschedule now p m =
    let data_state = state_of m "data" in
    let logs_state = state_of m "logs" in
    let old = m.policies in
    put "logs"
      (record logs_state { next_run = scheduled_next now old.logs_policy p.logs_policy logs_state })
      (put "data"
        (record data_state {
          next_run = scheduled_next now old.data_policy p.data_policy data_state;
        })
        m.states)

-- The revision is a uint64 that goes up by one per saved change.
unfoldable pub adopt : ℕ → Bool → Policies → ℕ → Manager → Manager × Saving
unfolding reschedule
adopt now ok p expected m =
    let p' : Policies = record p { revision = expected + 1 } in
    let states' = reschedule now p' m in
    if ok
    then (record m { policies = p'; states = states'; state_file = (p', states') }, saved p')
    else (m, not_saved)

unfoldable pub save_policies : List Bytes → ℕ → Bool → Policies → ℕ → Manager → Manager × Saving
unfolding validate adopt
save_policies registered now ok p expected m = elim (validate p.data_policy registered) [
  | some e ↦ (m, invalid_policy e)
  | none ↦ elim (validate p.logs_policy registered) [
    | some e ↦ (m, invalid_policy e)
    | none ↦
        if p.logs_policy.enabled && not m.logs_available
        then (m, logs_not_registered)
        else if not (m.policies.revision == expected)
        then (m, conflict)
        else if m.running
        then (m, manager_busy)
        else adopt now ok p expected m
  ]
]

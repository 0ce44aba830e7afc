-- ===== src/Mongox/Tests.antt =====
-- The replayer over a list of rows, at concrete inputs.
use acat_go_common.Common.{
  ◌≡◌, refl, ℕ, String, none, List, [], ◌∷◌, map, ◌==◌, if◌then◌else◌, arith, ◌++◌,
}
use acat_go_common.Common.Int.{pos, pos_part}
use acat_go_common.Apperr.{plain}
use acat_go_common.Exec.{Return, Exec, ok, err, try}
use acat_go_common.Mongox.{Event, EventStore, truncate, sweep, loop}
use acat_go_common.Mongox.Table.{
  IsOutbox, pending, first, with_id, as_synced, as_failed, settle, count_ok,
}
use acat_go_common.Mongox.Settled.{sweep_settles}
use acat_go_common.Mongox.Drained.{loop_drains}

-- the table as a list of rows
abbrev table : EventStore (List Event)
table = record {
  enqueue_outbox = λ e rows. (ok tt, rows ++ e ∷ []);
  select_pending_outbox = λ n rows. (ok (first (pos_part n) (pending rows)), rows);
  mark_outbox_synced = λ id rows. (ok tt, map (with_id id as_synced) rows);
  mark_outbox_failed = λ id m rows. (ok tt, map (with_id id (as_failed m)) rows);
}

abbrev row : String → ℕ → Event
row id attempts = record {
  id = id;
  aggregate_type = "chapter";
  aggregate_id = "c1";
  event_type = "SAVE";
  payload = "{}";
  status = 0;
  attempts = attempts;
  last_error = "";
}

-- MongoDB refuses one document
abbrev outcome : Event → Return (Unit {0})
outcome e = if e.id == "b" then err (plain "mongo down") else ok tt

abbrev apply : Event → Exec (List Event) (Unit {0})
apply e rows = (outcome e, rows)

table-IsOutbox : IsOutbox table apply (λ rows. rows)
table-IsOutbox = record {
  select_answer = λ n s. refl;
  select_keeps = λ n s. refl;
  synced_answer = λ id s. refl;
  synced_rows = λ id s. refl;
  failed_answer = λ id m s. refl;
  failed_rows = λ id m s. refl;
  apply_keeps = λ e s. refl;
}

abbrev rows : List Event
rows = row "a" 0 ∷ row "b" 8 ∷ row "c" 10 ∷ []

sweep_settles_example :
    ((sweep table apply (pos 2) rows).0 ≡ (count_ok outcome (first 2 (pending rows)), none))
    × ((sweep table apply (pos 2) rows).1 ≡ settle outcome (first 2 (pending rows)) rows)
sweep_settles_example = sweep_settles table apply table-IsOutbox outcome (λ e s. refl) 2 rows

loop_drains_example : pending (loop table apply 12 (pos 2) rows) ≡ []
loop_drains_example = loop_drains table apply table-IsOutbox 1 12 rows (omega arith)

sweep_runs : (sweep table apply (pos 2) rows).0 ≡ (1, none)
unfolding sweep try
sweep_runs = refl

truncates : truncate "héé" 4 ≡ "hé"
unfolding truncate
truncates = refl

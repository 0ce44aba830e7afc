-- ===== src/Mongox/Drained.antt =====
-- mongox/mongox.go: the rounds of the replayer come to an end of the pending rows.
use acat_go_common.Common.{
  List-cases, ◌≡◌, refl, sym, ap, ◌∙◌, ℕ, zero, suc, ◌+◌, ◌-◌, ◌≤◌, ◌<◌, String, true, List, [],
  ◌∷◌, map, ◌==◌, if◌then◌else◌, Bool-cases, inl, inr, eq_refl, arith,
}
use mathlib.Core.Path.{subst}
use acat_go_common.Common.Int.{pos}
use acat_go_common.Exec.{Return, Exec, ok, err}
use acat_go_common.Mongox.{Event, EventStore, max_attempts, handle, replay, sweep, loop}
use acat_go_common.Mongox.Table.{IsOutbox, is_pending, pending, first, with_id, mark, one}
use acat_go_common.Mongox.Settled.{handle_by}

-- the tries that are left to a row
abbrev pub tries : Event → ℕ
tries e = if is_pending e then max_attempts - e.attempts else 0

abbrev pub work : List Event → ℕ
work [] = 0
work (e ∷ es) = tries e + work es

tries-mark : (o : Return (Unit {0})) (e : Event) → tries (mark o e) ≤ tries e
tries-mark (ok tt) e = ground arith
tries-mark (err why) e = ground arith

tries-mark_less :
    (o : Return (Unit {0})) (e : Event) → is_pending e ≡ true → tries (mark o e) < tries e
tries-mark_less (ok tt) e h = ground (arith, h)
tries-mark_less (err why) e h = ground (arith, h)

with_id-tries :
    (id : String) (o : Return (Unit {0})) (e : Event) → tries (with_id id (mark o) e) ≤ tries e
with_id-tries id o e = elim (Bool-cases (e.id == id)) [
  | inl q ↦ rw q (tries-mark o e)
  | inr q ↦ rw q (omega arith)
]

work-mark :
    (id : String) (o : Return (Unit {0})) (es : List Event)
    → work (map (with_id id (mark o)) es) ≤ work es
work-mark id o [] = omega arith
work-mark id o (e ∷ es) = omega (arith, with_id-tries id o e, work-mark id o es)

-- the first pending row has one try less after its own mark
work_less :
    (o : Return (Unit {0})) (es : List Event) (b : Event) (rest : List Event)
    → pending es ≡ b ∷ rest
    → work (map (with_id b.id (mark o)) es) < work es
work_less o [] b rest h = absurd (cc h)
work_less o (e ∷ es) b rest h = elim (Bool-cases (is_pending e)) [
  | inl q ↦
      let found : e ∷ pending es ≡ b ∷ rest = rw q at h in
      let same : e ≡ b = cc found in
      subst (λ x. work (map (with_id x.id (mark o)) (e ∷ es)) < work (e ∷ es)) same (own e q)
  | inr q ↦
      let later : pending es ≡ b ∷ rest = rw q at h in
      omega (arith, with_id-tries b.id o e, work_less o es b rest later)
]
  where
    own :
        (e : Event)
        → is_pending e ≡ true
        → work (map (with_id e.id (mark o)) (e ∷ es)) < work (e ∷ es)
    own e q = rw (eq_refl e.id) (omega (arith, tries-mark_less o e q, work-mark e.id o es))

work_zero : (es : List Event) → work es ≤ 0 → pending es ≡ []
work_zero [] h = refl
work_zero (e ∷ es) h = elim (Bool-cases (is_pending e)) [
  | inl q ↦ absurd (pending_has_tries e q (omega (arith, h)))
  | inr q ↦ rw q (work_zero es (omega (arith, h)))
]
  where
    pending_has_tries : (e : Event) → is_pending e ≡ true → tries e ≤ 0 → ⊥
    pending_has_tries e q k = ground (arith, q, k)

work_none : (es : List Event) → pending es ≡ [] → work es ≤ 0
work_none [] h = omega arith
work_none (e ∷ es) h = elim (Bool-cases (is_pending e)) [
  | inl q ↦ let no : e ∷ pending es ≡ [] = rw q at h in absurd (cc no)
  | inr q ↦ let ih = work_none es (rw q at h) in rw q (omega (arith, ih))
]

module _ {S : Type 0} (store : EventStore S) (apply : Event → Exec S (Unit {0}))
    {rows : S → List Event} (h : IsOutbox store apply rows) (batch : ℕ) where
  -- no event of a round gives a try back
  replay_works :
      (events : List Event) (synced : ℕ) (s : S)
      → work (rows (replay store apply events synced s).1) ≤ work (rows s)
  unfolding replay
  replay_works [] synced s = omega arith
  replay_works (e ∷ es) synced s =
      let o = (apply e s).0 in
      let (q, r) = handle_by store apply h e s o refl in
      let s1 = (handle store apply e s).1 in
      let marked = subst (λ x. work x ≤ work (rows s)) (sym r) (work-mark e.id o (rows s)) in
      rw (replay, q) (omega (arith, marked, replay_works es (synced + one o) s1))

  -- and the first one uses up a try
  replay_works_less :
      (b : Event) (events rest : List Event) (s : S)
      → pending (rows s) ≡ b ∷ rest
      → work (rows (replay store apply (b ∷ events) 0 s).1) < work (rows s)
  unfolding replay
  replay_works_less b events rest s k =
      let o = (apply b s).0 in
      let (q, r) = handle_by store apply h b s o refl in
      let s1 = (handle store apply b s).1 in
      let marked = subst (λ x. work x < work (rows s)) (sym r) (work_less o (rows s) b rest k) in
      rw (replay, q) (omega (arith, marked, replay_works events (0 + one o) s1))

  -- a round uses up a try, if there is one
  round_works :
      (ticks : ℕ) (s : S)
      → work (rows s) ≤ suc ticks
      → work (rows (sweep store apply (pos (suc batch)) s).1) ≤ ticks
  unfolding sweep
  round_works ticks s k =
      let s1 = (store.select_pending_outbox (pos (suc batch)) s).1 in
      let answer = h.select_answer (suc batch) s in
      let same = h.select_keeps (suc batch) s in
      elim (List-cases (pending (rows s))) [
        | inl e ↦
            rw (sweep, answer, e)
              (omega (arith, work_none (rows s) e, ap work same, replay_works [] 0 s1))
        | inr (b, rest, e) ↦
            let less = replay_works_less b (first batch rest) rest s1 (ap pending same ∙ e) in
            rw (sweep, answer, e) (omega (arith, k, ap work same, less))
      ]

  -- While the table answers as it promises, whatever becomes of the single events, and whether an event
  -- is applied at one try or another, once there have been as many rounds as there were tries left no
  -- row is pending: each is synced, or its tries are used up.
  pub loop_drains :
      (ticks : ℕ) (s : S)
      → work (rows s) ≤ ticks
      → pending (rows (loop store apply ticks (pos (suc batch)) s)) ≡ []
  unfolding loop
  loop_drains zero s k = work_zero (rows s) k
  loop_drains (suc ticks) s k =
      loop_drains ticks (sweep store apply (pos (suc batch)) s).1 (round_works ticks s k)

-- ===== src/Satoken/Memory/Races.antt =====
-- `MemoryStore` of satoken/store.go under concurrent use: the lock is released inside `Get` between reading the entry
-- and deleting it, so other methods run in between. Methods with one critical section are atomic.
use mathlib.Core.Path.{subst}
use acat_go_common.Common.{
  ◌≡◌, ◌≢◌, refl, ◌∙◌, String, Option, none, some, Bool, true, false, List, [], ◌∷◌, arith, ◌==◌,
  eq_iff, eq_refl, if◌then◌else◌, contains, Bool-cases, Option-cases, inl, inr, All,
}
use acat_go_common.Common.Int.{ℤ}
use acat_go_common.Common.Assoc.{
  lookup, remove, lookup-insert_self, lookup-remove, lookup-remove_self,
}
use acat_go_common.Satoken.Memory.{MemoryEntry, MemoryStore, is_stale, set, delete, get_entry}
use acat_go_common.Satoken.Memory.Refinement.{view, live, Fits, live-new_entry, view-set_other}

-- The map, and the keys that running `Get`s have found expired and not yet deleted.
pub record Shared : Type 0 where
  pub held : MemoryStore
  pub pending : List String

-- `begin_get` is the first critical section of `Get` and the test behind it, `end_get` the second,
-- where the test asked for it.
pub data Action : Type 0 where
  begin_get end_get : String → Action
  write : String → String → ℤ → Action
  erase : String → Action

abbrev stale_at : ℤ → Option MemoryEntry → Bool
stale_at now none = false
stale_at now (some e) = is_stale now e

abbrev drop_one : String → List String → List String
drop_one k [] = []
drop_one k (j ∷ ks) = if j == k then ks else j ∷ drop_one k ks

unfoldable pub act : ℤ → Shared → Action → Shared
unfolding set delete remove is_stale lookup
act now s (begin_get k) =
    if stale_at now (lookup k s.held) then record s { pending = k ∷ s.pending } else s
act now s (end_get k) =
    if contains s.pending k
    then record { held = remove k s.held; pending = drop_one k s.pending }
    else s
act now s (write k v t) = record s { held = (set none now k v t s.held).1 }
act now s (erase k) = record s { held = (delete none k s.held).1 }

unfoldable pub run : ℤ → Shared → List Action → Shared
unfolding act
run now s [] = s
run now s (a ∷ as') = run now (act now s a) as'

-- Run with nothing in between, the two sections of `Get` are the atomic `Get`.
run-get :
    (now : ℤ) (k : String) (m : MemoryStore)
    → (run now (record { held = m; pending = [] }) (begin_get k ∷ end_get k ∷ [])).held
      ≡ (get_entry now k (lookup k m) m).1
unfolding run
run-get now k m = elim (Option-cases (lookup k m)) [
  | inl missing ↦ rw missing (unfold get_entry in refl)
  | inr (e, held) ↦ elim (Bool-cases (is_stale now e)) [
    | inl stale ↦ rw (held, stale, eq_refl k) (unfold get_entry in rw stale)
    | inr fresh ↦ rw (held, fresh) (unfold get_entry in rw fresh)
  ]
]

-- The action leaves the key's value alone.
abbrev Avoids : String → Action → Type 0
Avoids k (begin_get j) = Unit
Avoids k (end_get j) = Unit
Avoids k (write j v t) = j ≢ k
Avoids k (erase j) = j ≢ k

-- The key's value is there, and no running `Get` is about to delete the key.
record Settled (now : ℤ) (k v : String) (s : Shared) : Type 0 where
  present : view now s.held k ≡ some v
  unclaimed : contains s.pending k ≡ false

live_is_fresh :
    (now : ℤ) (o : Option MemoryEntry) (v : String) → live now o ≡ some v → stale_at now o ≡ false
live_is_fresh now none v h = refl
live_is_fresh now (some e) v h = ground arith

contains-drop_one :
    (j k : String) (ks : List String) → contains ks k ≡ false → contains (drop_one j ks) k ≡ false
contains-drop_one j k [] h = refl
contains-drop_one j k (i ∷ ks) h = ground (arith, contains-drop_one j k ks)

view-remove_other :
    (now : ℤ) (j k : String) (m : MemoryStore) → j ≢ k → view now (remove j m) k ≡ view now m k
unfolding view
view-remove_other now j k m n = rw lookup-remove (ground (arith, eq_iff j k))

-- a key that is found stale is another key
stale_is_other :
    (now : ℤ) (j k v : String) (m : MemoryStore)
    → view now m k ≡ some v
    → stale_at now (lookup j m) ≡ true
    → j ≢ k
unfolding view
stale_is_other now j k v m h stale e =
    cc (live_is_fresh now (lookup k m) v h, subst (λ x. stale_at now (lookup x m) ≡ true) e stale)

claimed_is_other :
    (j k : String) (ks : List String) → contains ks k ≡ false → contains ks j ≡ true → j ≢ k
claimed_is_other j k ks h c e = cc (h, subst (λ x. contains ks x ≡ true) e c)

act-Settled :
    (now : ℤ) (k v : String) (s : Shared) (a : Action)
    → Avoids k a
    → Settled now k v s
    → Settled now k v (act now s a)
unfolding act
act-Settled now k v s (begin_get j) h w = elim (Bool-cases (stale_at now (lookup j s.held))) [
  | inl stale ↦
      let other = stale_is_other now j k v s.held w.present stale in
      rw stale (record { present = w.present; unclaimed = ground (arith, eq_iff j k, w.unclaimed) })
  | inr fresh ↦ rw fresh w
]
act-Settled now k v s (end_get j) h w = elim (Bool-cases (contains s.pending j)) [
  | inl claimed ↦
      let other = claimed_is_other j k s.pending w.unclaimed claimed in
      rw claimed (record {
        present = view-remove_other now j k s.held other ∙ w.present;
        unclaimed = contains-drop_one j k s.pending w.unclaimed;
      })
  | inr free ↦ rw free w
]
act-Settled now k v s (write j x t) h w = record {
  present = view-set_other now j k x t s.held h ∙ w.present;
  unclaimed = w.unclaimed;
}
act-Settled now k v s (erase j) h w = record {
  present = view-remove_other now j k s.held h ∙ w.present;
  unclaimed = w.unclaimed;
}

run-Settled :
    (now : ℤ) (k v : String) (s : Shared) (actions : List Action)
    → All (Avoids k) actions
    → Settled now k v s
    → Settled now k v (run now s actions)
unfolding run
run-Settled now k v s [] h w = w
run-Settled now k v s (a ∷ rest) (p, h) w =
    run-Settled now k v (act now s a) rest h (act-Settled now k v s a p w)

-- A value that is present while no running `Get` has claimed its key outlives every interleaving,
-- at that moment, of the sections of any `Get`s, this key's included, and of writes and deletions
-- of other keys.
pub written_value_survives :
    (now : ℤ) (k v : String) (s : Shared) (actions : List Action)
    → view now s.held k ≡ some v
    → contains s.pending k ≡ false
    → All (Avoids k) actions
    → view now (run now s actions).held k ≡ some v
written_value_survives now k v s actions here free h =
    (run-Settled now k v s actions h (record { present = here; unclaimed = free })).present

-- A write between the two sections of a `Get` that found the key expired is lost: after the `Get`
-- the key has no value, while with the `Get` first the written value is there.
pub write_within_get_lost :
    (now : ℤ) (k v : String) (t : ℤ) (s : Shared)
    → stale_at now (lookup k s.held) ≡ true
    → Fits t
    → (view now (run now s (begin_get k ∷ write k v t ∷ end_get k ∷ [])).held k ≡ none)
      × (view now (run now s (begin_get k ∷ end_get k ∷ write k v t ∷ [])).held k ≡ some v)
unfolding run
write_within_get_lost now k v t s stale fits = (
  rw (stale, eq_refl k) (unfold view in rw lookup-remove_self),
  rw (stale, eq_refl k, fits.0)
      (unfold view in rw lookup-insert_self (live-new_entry now t v fits)),
)

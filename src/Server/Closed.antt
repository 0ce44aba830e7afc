-- ===== src/Server/Closed.antt =====
-- server/server.go: the service is closed once, however `Run` ends.
use acat_go_common.Common.{◌≡◌, refl, ap, ◌∙◌, inl, inr, ℕ, suc, none, some}
use acat_go_common.Apperr.{GoError}
use acat_go_common.Exec.{Return-cases, Exec, try, pure, raise}
use acat_go_common.Server.{
  Ending, ended, signalled, HttpServer, Service, close_service, failed_serving, failed_shutdown,
  stop, run,
}

-- `closes` counts the calls of the service's `Close`; the server's calls do not change it.
pub record Counts {S : Type 0} (http : HttpServer S) (svc : Service S) (closes : S → ℕ)
    : Type 0 where
  pub close_counts : (s : S) → closes (svc.close s).1 ≡ suc (closes s)
  pub serve_keeps : (s : S) → closes (http.serve s).1 ≡ closes s
  pub shutdown_keeps : (s : S) → closes (http.shutdown s).1 ≡ closes s
  pub force_close_keeps : (s : S) → closes (http.force_close s).1 ≡ closes s

module _ {S : Type 0} (http : HttpServer S) (svc : Service S) (closes : S → ℕ)
    (count : Counts http svc closes) where
  service_counts : (s : S) → closes (close_service http (some svc) s).1 ≡ suc (closes s)
  unfolding close_service try
  service_counts s = elim (Return-cases (svc.close s).0) [
    | inl (e, q) ↦ rw q (count.close_counts s)
    | inr (a, q) ↦ rw q (count.close_counts s)
  ]

  -- closing the service, whatever follows without touching the state
  then_counts :
      (f : Unit {0} → Exec S (Unit {0})) (g : GoError → Exec S (Unit {0})) (s : S)
      → ((s' : S) → (f tt s').1 ≡ s')
      → ((e : GoError) (s' : S) → (g e s').1 ≡ s')
      → closes (try (close_service http (some svc)) f g s).1 ≡ suc (closes s)
  unfolding try
  then_counts f g s p q = elim (Return-cases (close_service http (some svc) s).0) [
    | inl (e, k) ↦ rw k (ap closes (q e _) ∙ service_counts s)
    | inr (a, k) ↦ rw k (ap closes (p _) ∙ service_counts s)
  ]

  stop_counts :
      (ending : Ending) (s : S) → closes (stop http (some svc) ending s).1 ≡ suc (closes s)
  unfolding stop try
  stop_counts (ended none) s =
      then_counts (λ _. pure tt) (λ _. pure tt) s (λ s'. refl) (λ e s'. refl)
  stop_counts (ended (some e)) s =
      then_counts (λ _. raise (failed_serving http e)) (λ _. raise (failed_serving http e)) s
        (λ s'. refl) (λ e' s'. refl)
  stop_counts signalled s = elim (Return-cases (http.shutdown s).0) [
    | inr (a, q) ↦ rw (stop, q) (service_counts _ ∙ ap suc (count.shutdown_keeps s))
    | inl (e, q) ↦
        let s1 = (http.shutdown s).1 in
        let s2 = (http.force_close s1).1 in
        let closed =
          then_counts (λ _. raise (failed_shutdown http e)) raise s2 (λ s'. refl) (λ e' s'. refl)
          ∙ ap suc (count.force_close_keeps s1 ∙ count.shutdown_keeps s) in
        elim (Return-cases (http.force_close s1).0) [
          | inl (e', q') ↦ rw (stop, q, q') closed
          | inr (a, q') ↦ rw (stop, q, q') closed
        ]
  ]

  -- However the server ends, by itself, with an error or on a signal, and whether its shutdown succeeds
  -- or not, `Run` calls the service's `Close` once, where the server's own calls do not close the
  -- service.
  pub run-closes : (s : S) → closes (run http (some svc) s).1 ≡ suc (closes s)
  unfolding run
  run-closes s = stop_counts (http.serve s).0 (http.serve s).1 ∙ ap suc (count.serve_keeps s)

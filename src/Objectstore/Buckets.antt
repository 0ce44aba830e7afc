-- ===== src/Objectstore/Buckets.antt =====
-- objectstore/s3.go: `EnsureBucket` against a server that has the bucket or does not.
use acat_go_common.Common.{
  ◌≡◌, ◌∙◌, ℕ, ◌≤◌, ◌<◌, Bool, true, false, some, List, if◌then◌else◌, Bool-cases, inl, inr, arith,
}
use acat_go_common.Apperr.{sentinel, bucket_missing, is}
use acat_go_common.Exec.{Exec, ok, err, try, ◌>>=◌}
use acat_go_common.Objectstore.Calls.{
  is_success, Response, do_bucket, head_bucket, create_bucket, ensure_bucket,
}
use acat_go_common.Objectstore.{Client}
use acat_go_common.Objectstore.Signing.{Crypto, Clock, Request, new_bucket_request}

-- How a server answers the two requests for a bucket, while it answers: `HEAD` says whether the
-- bucket is there, with 200 or 404, and `PUT` makes it, with a status from 200 on.
pub record ServesBucket {S : Type 0} (http : Request → Exec S Response) (head put : Request)
    (exists : S → Bool) : Type 0 where
  pub created : ℕ
  pub created_success : (200 ≤ created) × (created < 300)
  pub head_answer :
      (s : S)
      → (body : List ℕ) × ((http head s).0
          ≡ ok record { status_code = if exists s then 200 else 404; body = body })
  pub head_keeps : (s : S) → exists (http head s).1 ≡ exists s
  pub put_answer :
      (s : S)
      → (body : List ℕ) × ((http put s).0 ≡ ok record { status_code = created; body = body })
  pub put_creates : (s : S) → exists (http put s).1 ≡ true

module _ {S : Type 0} (http : Request → Exec S Response) (crypto : Crypto) (clock : Clock)
    (c : Client) (exists : S → Bool)
    (server : ServesBucket http
      (new_bucket_request crypto clock c "HEAD")
      (new_bucket_request crypto clock c "PUT")
      exists) where
  head_found :
      (s : S)
      → exists s ≡ true
      → ((head_bucket http crypto clock (some c) s).0 ≡ ok tt)
        × (exists (head_bucket http crypto clock (some c) s).1 ≡ true)
  unfolding head_bucket do_bucket try ◌>>=◌
  head_found s e =
      let (body, a) = server.head_answer s in (rw (a, e), rw (a, e) (server.head_keeps s ∙ e))

  head_missing :
      (s : S)
      → exists s ≡ false
      → ((head_bucket http crypto clock (some c) s).0 ≡ err (sentinel bucket_missing))
  unfolding head_bucket do_bucket try ◌>>=◌
  head_missing s e = let (body, a) = server.head_answer s in rw (a, e)

  creates :
      (s : S)
      → ((create_bucket http crypto clock (some c) s).0 ≡ ok tt)
        × (exists (create_bucket http crypto clock (some c) s).1 ≡ true)
  unfolding create_bucket do_bucket try ◌>>=◌
  creates s =
      let (body, a) = server.put_answer s in
      let (low, high) = server.created_success in
      let okay : is_success server.created ≡ true = ground (arith, low, high) in
      (rw (a, okay), rw (a, okay) (server.put_creates s))

  -- While the server answers, `EnsureBucket` succeeds, and the bucket is there afterwards, whether it
  -- was there before or not.
  pub ensure_bucket_there :
      (s : S)
      → ((ensure_bucket http crypto clock (some c) s).0 ≡ ok tt)
        × (exists (ensure_bucket http crypto clock (some c) s).1 ≡ true)
  unfolding ensure_bucket try is
  ensure_bucket_there s = elim (Bool-cases (exists s)) [
    | inl e ↦ let (a, b) = head_found s e in (rw (ensure_bucket, a), rw (ensure_bucket, a) b)
    | inr e ↦
        let a = head_missing s e in
        let (p, q) = creates (head_bucket http crypto clock (some c) s).1 in
        (rw (ensure_bucket, a) p, rw (ensure_bucket, a) q)
  ]

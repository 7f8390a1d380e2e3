-- ===== src/Throttle/Limit.antt =====
-- How many requests of one key apps/api/src/common/throttler.guard.ts lets pass within a window.
use justmail.Prelude.{
  ℕ, ◌+◌, ◌-◌, ◌*◌, ◌<◌, ◌≡◌, Bool, true, false, not, ◌&&◌, List, [], ◌∷◌, none, some, Text,
  text_eq, text_eq_iff, text_eq_refl, arith, Bool-cases, inl, inr, if◌then◌else◌, leb,
}
use justmail.Throttle.{
  Bucket, Memory, bucket_of, start_window, open_bucket, hit_memory, hit, ThrottleOptions, Request,
  options, exempt, key_of, can_activate, decide,
}
use justmail.Throttle.Window.{
  Arrival, step, admitted, AreWithin, own_hit, other_hit, own_start, hit_closed,
}

abbrev pub is_counted : Request → Bool
is_counted r = r.is_http && not r.skip

-- The requests of a key that the guard counts.
unfoldable pub counted : Text → List Arrival → ℕ
counted key [] = 0
counted key (x ∷ xs) =
    (if text_eq (key_of x.request) key && is_counted x.request then 1 else 0) + counted key xs

abbrev pub lesser : ℕ → ℕ → ℕ
lesser a b = if leb a b then a else b

module _ (global : ThrottleOptions) where
  step_exempt :
      (x : Arrival) (mem : Memory)
      → is_counted x.request ≡ false
      → step global x mem ≡ (exempt, mem)
  unfolding can_activate
  step_exempt x mem h = ground arith

  step_counted :
      (x : Arrival) (mem : Memory)
      → is_counted x.request ≡ true
      → step global x mem ≡ (
        decide
            (options global x.request).limit
            (hit_memory (key_of x.request) (options global x.request).ttl x.now mem).0,
        (hit_memory (key_of x.request) (options global x.request).ttl x.now mem).1,
      )
  unfolding can_activate hit
  step_counted x mem h = ground arith

  admitted_open :
      (key : Text) (limit : ℕ) (b : Bucket) (xs : List Arrival) (mem : Memory)
      → bucket_of key mem ≡ some b
      → AreWithin global key limit b.reset_at xs
      → admitted global key xs mem ≡ lesser (counted key xs) (limit - b.count)
  unfolding admitted counted
  admitted_open key limit b [] mem h within = ground arith
  admitted_open key limit b (x ∷ xs) mem h ((lt, same), within) =
      elim (Bool-cases (is_counted x.request)) [
        | inr free ↦
            rw (step_exempt x mem free) (ground (arith, admitted_open key limit b xs mem h within))
        | inl taken ↦
            rw (step_counted x mem taken) (elim (Bool-cases (text_eq (key_of x.request) key)) [
              | inl own ↦
                  let here : key_of x.request ≡ key = (text_eq_iff (key_of x.request) key).0 own in
                  let ttl = (options global x.request).ttl in
                  let (n, stays) = own_hit global key ttl x.now b mem h lt in
                  rw here (
                    ground (
                      arith,
                      n,
                      same here,
                      text_eq_refl key,
                      admitted_open key limit (record b { count = b.count + 1 }) xs
                          (hit_memory key ttl x.now mem).1 stays within,
                    ))
              | inr other ↦
                  let ttl = (options global x.request).ttl in
                  let stays = other_hit global key (key_of x.request) ttl x.now b mem other h lt in
                  ground (
                    arith,
                    admitted_open key limit b xs (hit_memory (key_of x.request) ttl x.now mem).1
                        stays within,
                  )
            ])
      ]

  -- Without Redis, from the first counted request of a key whose window is over (or that has
  -- none), under a window of at least one second, of the requests that arrive before the new
  -- window ends, those of the key under the same limit, whatever other keys they are mixed with
  -- and however often the guard sweeps, it lets as many of the counted ones of the key pass as the
  -- limit allows: all of them, or `limit`.
  pub admitted_lem :
      (key : Text) (x : Arrival) (xs : List Arrival) (mem : Memory)
      → key_of x.request ≡ key
      → is_counted x.request ≡ true
      → 0 < (options global x.request).ttl
      → open_bucket x.now (bucket_of key mem) ≡ none
      → AreWithin global key
          (options global x.request).limit
          (x.now + (options global x.request).ttl * 1000)
          xs
      → admitted global key (x ∷ xs) mem
        ≡ lesser (counted key (x ∷ xs)) (options global x.request).limit
  unfolding admitted counted
  admitted_lem key x xs mem own taken pos closed within =
      let ttl = (options global x.request).ttl in
      let first : Bucket = record { count = 1; reset_at = x.now + ttl * 1000 } in
      rw (step_counted x mem taken) (
        rw own (
          rw (hit_closed key ttl x.now mem closed) (
            ground (
              arith,
              text_eq_refl key,
              admitted_open key (options global x.request).limit first xs
                  (start_window key ttl x.now mem) (own_start global key ttl x.now mem pos) within,
            ))))

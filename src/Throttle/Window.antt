-- ===== src/Throttle/Window.antt =====
-- The window that apps/api/src/common/throttler.guard.ts counts in the process.
use justmail.Prelude.{
  ◌-◌, ℕ, ◌+◌, ◌*◌, ◌<◌, ◌≡◌, Bool, true, false, ◌&&◌, List, [], ◌∷◌, none, some, Text, text_eq,
  text_eq_iff, text_eq_refl, refl, arith, Option-cases, inl, inr, if◌then◌else◌, All,
}
use justmail.Throttle.{
  Bucket, Memory, bucket_of, set, sweep, start_window, open_bucket, seconds_left, hit_memory,
  ThrottleOptions, Request, options, Answer, passed, key_of, can_activate,
}

bucket_of-set :
    (key k : Text) (b : Bucket) (mem : Memory)
    → bucket_of key (set k b mem) ≡ (if text_eq k key then some b else bucket_of key mem)
bucket_of-set key k b [] = refl
bucket_of-set key k b ((j, c) ∷ mem) =
    ground (arith, bucket_of-set key k b mem, text_eq_iff j k, text_eq_iff k key, text_eq_iff j key)

-- A window that has not ended outlives a sweep.
bucket_of-sweep :
    (key : Text) (now : ℕ) (b : Bucket) (mem : Memory)
    → bucket_of key mem ≡ some b
    → now < b.reset_at
    → bucket_of key (sweep now mem) ≡ some b
bucket_of-sweep key now b [] h lt = ground arith
bucket_of-sweep key now b ((k, c) ∷ mem) h lt = ground (arith, bucket_of-sweep key now b mem)

-- A request that arrives at a time.
pub record Arrival : Type 0 where
  pub request : Request
  pub now : ℕ

abbrev pub is_passed : Answer → Bool
is_passed (passed l n) = true
is_passed _ = false

pub hit_closed :
    (key : Text) (ttl now : ℕ) (mem : Memory)
    → open_bucket now (bucket_of key mem) ≡ none
    → hit_memory key ttl now mem
      ≡ (record { count = 1; ttl_remaining = ttl }, start_window key ttl now mem)
unfolding hit_memory
hit_closed key ttl now mem h = ground arith

hit_open :
    (key : Text) (ttl now : ℕ) (b : Bucket) (mem : Memory)
    → open_bucket now (bucket_of key mem) ≡ some b
    → hit_memory key ttl now mem ≡ (
      record { count = b.count + 1; ttl_remaining = seconds_left (b.reset_at - now) },
      set key (record b { count = b.count + 1 }) mem,
    )
unfolding hit_memory
hit_open key ttl now b mem h = ground arith

-- The guard without Redis, over a sequence of requests: how many of those of a key it lets pass.
module _ (global : ThrottleOptions) where
  abbrev pub step : Arrival → Memory → Answer × Memory
  step x mem = can_activate global none x.request x.now mem

  unfoldable pub admitted : Text → List Arrival → Memory → ℕ
  admitted key [] mem = 0
  admitted key (x ∷ xs) mem =
      let (answer, next) = step x mem in
      (if text_eq (key_of x.request) key && is_passed answer then 1 else 0) + admitted key xs next

  -- Requests before the end of a window, those of the key under the same limit.
  abbrev pub AreWithin : Text → ℕ → ℕ → List Arrival → Type 0
  AreWithin key limit end =
      All (λ x. (x.now < end) × (key_of x.request ≡ key → (options global x.request).limit ≡ limit))

  other_start :
      (key k : Text) (ttl now : ℕ) (b : Bucket) (mem : Memory)
      → text_eq k key ≡ false
      → bucket_of key mem ≡ some b
      → now < b.reset_at
      → bucket_of key (start_window k ttl now mem) ≡ some b
  unfolding start_window
  other_start key k ttl now b mem other h lt =
      let next = set k (record { count = 1; reset_at = now + ttl * 1000 }) mem in
      ground (
        arith,
        bucket_of-set key k (record { count = 1; reset_at = now + ttl * 1000 }) mem,
        bucket_of-sweep key now b next,
      )

  pub own_start :
      (key : Text) (ttl now : ℕ) (mem : Memory)
      → 0 < ttl
      → bucket_of key (start_window key ttl now mem)
        ≡ some (record { count = 1; reset_at = now + ttl * 1000 })
  unfolding start_window
  own_start key ttl now mem pos =
      let fresh : Bucket = record { count = 1; reset_at = now + ttl * 1000 } in
      ground (
        arith,
        bucket_of-set key key fresh mem,
        text_eq_refl key,
        bucket_of-sweep key now fresh (set key fresh mem),
      )

  pub other_hit :
      (key k : Text) (ttl now : ℕ) (b : Bucket) (mem : Memory)
      → text_eq k key ≡ false
      → bucket_of key mem ≡ some b
      → now < b.reset_at
      → bucket_of key (hit_memory k ttl now mem).1 ≡ some b
  other_hit key k ttl now b mem other h lt =
      elim (Option-cases (open_bucket now (bucket_of k mem))) [
        | inl closed ↦
            rw (hit_closed k ttl now mem closed) (other_start key k ttl now b mem other h lt)
        | inr (c, found) ↦
            rw (hit_open k ttl now c mem found)
              (ground (arith, bucket_of-set key k (record c { count = c.count + 1 }) mem))
      ]

  pub own_hit :
      (key : Text) (ttl now : ℕ) (b : Bucket) (mem : Memory)
      → bucket_of key mem ≡ some b
      → now < b.reset_at
      → ((hit_memory key ttl now mem).0.count ≡ b.count + 1)
        × (bucket_of key (hit_memory key ttl now mem).1 ≡ some (record b { count = b.count + 1 }))
  own_hit key ttl now b mem h lt =
      let found : open_bucket now (bucket_of key mem) ≡ some b = ground arith in
      rw (hit_open key ttl now b mem found) (
        refl,
        ground
            (arith, bucket_of-set key key (record b { count = b.count + 1 }) mem, text_eq_refl key),
      )

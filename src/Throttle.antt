-- ===== src/Throttle.antt =====
-- apps/api/src/common/throttler.guard.ts. The map of the guard is an association list, times are in
-- milliseconds and a `ttl` is in seconds. What Redis answers to the calls of one request is an
-- argument; an absent `ip` is the empty text.
pub mod Window
pub mod Limit
use justmail.Prelude.{
  ℕ, ◌+◌, ◌-◌, ◌*◌, ◌/◌, Bool, true, false, not, ◌&&◌, ◌||◌, List, [], ◌∷◌, ◌++◌, Option, none,
  some, Text, codes, text_eq, ltb, leb, ◌==◌, if◌then◌else◌, length,
}
use justmail.Prelude.Table.{exclude}

pub record Bucket : Type 0 where
  pub count : ℕ
  pub reset_at : ℕ

abbrev pub Memory : Type 0
Memory = List (Text × Bucket)

pub record Hit : Type 0 where
  pub count : ℕ
  pub ttl_remaining : ℕ

abbrev pub bucket_of : Text → Memory → Option Bucket
bucket_of key [] = none
bucket_of key ((k, b) ∷ mem) = if text_eq k key then some b else bucket_of key mem

-- `memory.set`
abbrev pub set : Text → Bucket → Memory → Memory
set key b [] = (key, b) ∷ []
set key b ((k, c) ∷ mem) = if text_eq k key then (k, b) ∷ mem else (k, c) ∷ set key b mem

abbrev pub expired : ℕ → Text × Bucket → Bool
expired now (k, b) = leb b.reset_at now

-- `sweep`
abbrev pub sweep : ℕ → Memory → Memory
sweep now mem = exclude (expired now) mem

abbrev max_buckets : ℕ
max_buckets = 50000

-- `memory.set` of a new window, and the sweep behind it.
unfoldable pub start_window : Text → ℕ → ℕ → Memory → Memory
start_window key ttl now mem =
    let next = set key (record { count = 1; reset_at = now + ttl * 1000 }) mem in
    if ltb max_buckets (length next) then sweep now next else next

abbrev pub open_bucket : ℕ → Option Bucket → Option Bucket
open_bucket now none = none
open_bucket now (some b) = if leb b.reset_at now then none else some b

-- `Math.max(1, Math.ceil((resetAt - now) / 1000))`
abbrev pub seconds_left : ℕ → ℕ
seconds_left ms = let s = (ms + 999) / 1000 in if leb 1 s then s else 1

-- `hitMemory`
unfoldable pub hit_memory : Text → ℕ → ℕ → Memory → Hit × Memory
hit_memory key ttl now mem = elim (open_bucket now (bucket_of key mem)) [
  | none ↦ (record { count = 1; ttl_remaining = ttl }, start_window key ttl now mem)
  | some b ↦ (
    record { count = b.count + 1; ttl_remaining = seconds_left (b.reset_at - now) },
    set key (record b { count = b.count + 1 }) mem,
  )
]

-- What Redis answers: `none` where a call throws; `ttl` answers no positive number for a key without
-- expiry.
pub record RedisAnswers : Type 0 where
  pub incr : Option ℕ
  pub expire : Bool
  pub ttl : Option (Option ℕ)

abbrev remaining : Option ℕ → ℕ → ℕ
remaining none ttl = ttl
remaining (some t) ttl = if ltb 0 t then t else ttl

-- `hit`: where Redis is absent or throws, the window is counted in the process.
unfoldable pub hit : Option RedisAnswers → Text → ℕ → ℕ → Memory → Hit × Memory
hit redis key ttl now mem =
    let local = hit_memory key ttl now mem in
    elim redis [
      | none ↦ local
      | some r ↦ elim r.incr [
        | none ↦ local
        | some n ↦
            if n == 1
            then (if r.expire then (record { count = n; ttl_remaining = ttl }, mem) else local)
            else elim r.ttl [
              | none ↦ local
              | some t ↦ (record { count = n; ttl_remaining = remaining t ttl }, mem)
            ]
      ]
    ]

pub record ThrottleOptions : Type 0 where
  pub limit : ℕ
  pub ttl : ℕ

-- What the guard reads of the context and of the request.
pub record Request : Type 0 where
  pub is_http : Bool
  pub skip : Bool
  pub override : Option ThrottleOptions
  pub class_name : Text
  pub handler_name : Text
  pub ip : Text
  pub remote_address : Text

-- The guard lets a request pass uncounted, lets it pass, or refuses it with 429; the numbers are those
-- of the headers X-RateLimit-Limit, X-RateLimit-Remaining and Retry-After.
pub data Answer : Type 0 where
  exempt : Answer
  passed : ℕ → ℕ → Answer
  refused : ℕ → ℕ → ℕ → Answer

abbrev pub options : ThrottleOptions → Request → ThrottleOptions
options global r = elim r.override [ none ↦ global | some o ↦ o ]

abbrev bucket_id : Request → Text
bucket_id r = elim r.override [
  | none ↦ codes "global"
  | some o ↦ r.class_name ++ (b'.' ∷ r.handler_name)
]

abbrev or_text : Text → Text → Text
or_text [] t = t
or_text (c ∷ s) t = c ∷ s

-- `throttle:${bucketId}:${ip}`
unfoldable pub key_of : Request → Text
key_of r =
    codes "throttle:"
    ++ (bucket_id r ++ (b':' ∷ or_text r.ip (or_text r.remote_address (codes "unknown"))))

abbrev pub decide : ℕ → Hit → Answer
decide limit h =
    if ltb limit h.count
    then refused limit (limit - h.count) h.ttl_remaining
    else passed limit (limit - h.count)

-- `canActivate`; `global` is the window of the configuration.
unfoldable pub can_activate :
    ThrottleOptions → Option RedisAnswers → Request → ℕ → Memory → Answer × Memory
can_activate global redis r now mem =
    let o = options global r in
    let (h, next) = hit redis (key_of r) o.ttl now mem in
    if not r.is_http || r.skip then (exempt, mem) else (decide o.limit h, next)

-- ===== src/Rpc/Transport/Schedule.antt =====
-- What one `call` of a transport does to the network: which requests it posts, how long it sleeps
-- between them, and when it stops.
use mathlib.Core.Path.{subst}
use near_kit_py.Base.Int.{ℤ, pos, negsuc}
use near_kit_py.Base.{
  ℕ, zero, suc, ◌+◌, ◌-◌, ◌*◌, ◌^◌, ◌≤◌, ◌<◌, ◌≡◌, refl, sym, ap, ◌∙◌, ◌⊎◌, inl, inr, List, [], ◌∷◌,
  ◌++◌, append_assoc, append-nil, arith,
}
use native.Mathlib.Nat.{pow-suc, add-zero}
use near_kit_py.Errors.{Error, near, type_error, Result, ok, err}
use near_kit_py.Py.Text.{Str}
use near_kit_py.Py.Json.{Json}
use near_kit_py.Rpc.Transport.{
  Request, Reply, no_response, response, Event, slept, posted, Config, Net, handle, Attempt,
  settled, transient, after_error, read_reply, send, pause, attempts, rounds_of, call,
}

-- The events of `n` attempts in a row, from the given attempt and request id.
abbrev pub schedule : ℕ → ℕ → ℕ → Str → Json → ℕ → List Event
schedule delay attempt id method params zero = []
schedule delay zero id method params (suc n) =
    posted (record { id = id; method = method; params = params })
    ∷ schedule delay 1 (id + 1) method params n
schedule delay (suc a) id method params (suc n) =
    slept (delay * 2 ^ a)
    ∷ posted (record { id = id; method = method; params = params })
    ∷ schedule delay (suc (suc a)) (id + 1) method params n

-- A result that no further attempt is made after.
abbrev pub IsFinal : Result Json → Type 0
IsFinal (ok v) = Unit
IsFinal (err e) = after_error e ≡ settled (err e)

Result-cases : (r : Result Json) → ((v : Json) × (r ≡ ok v)) ⊎ ((e : Error) × (r ≡ err e))
Result-cases (ok v) = inl (v, refl)
Result-cases (err e) = inr (e, refl)

Attempt-cases :
    (a : Attempt) → ((r : Result Json) × (a ≡ settled r)) ⊎ ((e : Error) × (a ≡ transient e))
Attempt-cases (settled r) = inl (r, refl)
Attempt-cases (transient e) = inr (e, refl)

-- An error that is not kept for another attempt is handed on unchanged.
after_error-eq :
    (d : Error) (r : Result Json)
    → after_error d ≡ settled r
    → (r ≡ err d) × (after_error d ≡ settled (err d))
unfolding after_error
after_error-eq (near e) r h = ground arith
after_error-eq d r h = ground arith

after_error-IsFinal : (d : Error) (r : Result Json) → after_error d ≡ settled r → IsFinal r
after_error-IsFinal d r h = let (e, g) = after_error-eq d r h in rw e g

pub settled-IsFinal : (reply : Reply) (r : Result Json) → read_reply reply ≡ settled r → IsFinal r
unfolding read_reply
settled-IsFinal no_response r h = absurd (cc)
settled-IsFinal (response status payload) r h = elim (Result-cases (handle status payload)) [
  | inl (v, e) ↦ let q : r ≡ ok v = ground (arith, h, e) in rw q tt
  | inr (d, e) ↦ after_error-IsFinal d r (rw (e, read_reply) at h)
]

-- What a call has done to the network when it is over.
pub record Served {W : Type 0} (delay attempt rounds : ℕ) (method : Str) (params : Json) (s : Net W)
    (out : Result Json × Net W) : Type 0 where
  pub posts : ℕ
  pub within : posts ≤ rounds
  pub tried : 0 < rounds → 0 < posts
  pub events : (out.1).trace ≡ s.trace ++ schedule delay attempt s.next_id method params posts
  pub ids : (out.1).next_id ≡ s.next_id + posts
  pub stopped : posts < rounds → IsFinal out.0

schedule_cons :
    (delay a id : ℕ) (method : Str) (params : Json) (n : ℕ)
    → schedule delay a id method params (suc n)
      ≡ schedule delay a id method params 1 ++ schedule delay (suc a) (id + 1) method params n
schedule_cons delay zero id method params n = refl
schedule_cons delay (suc a) id method params n = refl

module _ {W : Type 0} (post : Request → W → Reply × W) (delay : ℕ) (method : Str)
    (params : Json) where
  -- One round: the pause and the post.
  round : ℕ → Net W → Reply × Net W
  round attempt s = send post method params (pause post delay attempt s)

  round_events :
      (attempt : ℕ) (s : Net W)
      → (((round attempt s).1).trace ≡ s.trace ++ schedule delay attempt s.next_id method params 1)
        × (((round attempt s).1).next_id ≡ s.next_id + 1)
  unfolding round send pause
  round_events zero s = (refl, refl)
  round_events (suc a) s = (append_assoc s.trace _ _, refl)

  Served-once :
      (rounds attempt : ℕ) (s : Net W) (r : Result Json)
      → IsFinal r
      → Served delay attempt (suc rounds) method params s (r, (round attempt s).1)
  Served-once rounds attempt s r final = record {
    posts = 1;
    within = omega arith;
    tried = λ h. omega arith;
    events = (round_events attempt s).0;
    ids = (round_events attempt s).1;
    stopped = λ h. final;
  }

  Served-more :
      (rounds attempt : ℕ) (s : Net W) (out : Result Json × Net W)
      → Served delay (suc attempt) rounds method params (round attempt s).1 out
      → Served delay attempt (suc rounds) method params s out
  Served-more rounds attempt s out rest =
      let (traced, counted) = round_events attempt s in
      record {
        posts = suc rest.posts;
        within = omega (arith, rest.within);
        tried = λ h. omega arith;
        events =
            rest.events
            ∙ rw (traced, counted, schedule_cons delay attempt s.next_id method params rest.posts)
                (append_assoc s.trace _ _);
        ids = omega (arith, rest.ids, counted);
        stopped = λ h. rest.stopped (omega arith);
      }

  pub attempts-Served :
      (rounds attempt : ℕ) (last : Error) (s : Net W)
      → Served delay attempt rounds method params s
          (attempts post rounds delay attempt last method params s)
  unfolding attempts round
  attempts-Served zero attempt last s = record {
    posts = 0;
    within = omega arith;
    tried = omega arith;
    events = sym (append-nil s.trace);
    ids = omega arith;
    stopped = λ h. absurd (omega arith);
  }
  attempts-Served (suc rounds) attempt last s =
      let reply = (round attempt s).0 in
      elim (Attempt-cases (read_reply reply)) [
        | inl (r, e) ↦ rw (e, attempts) (Served-once rounds attempt s r (settled-IsFinal reply r e))
        | inr (d, e) ↦
            rw (e, attempts)
              (Served-more rounds attempt s _
                (attempts-Served rounds (suc attempt) d (round attempt s).1))
      ]

-- `retries + 1`, for a number of retries that is not negative.
abbrev pub tries : ℤ → ℕ
tries (pos n) = n + 1
tries (negsuc n) = 0

rounds_of-tries : {W : Type 0} (post : Request → W → Reply × W) (z : ℤ) → rounds_of post z ≡ tries z
rounds_of-tries post (pos n) = omega arith
rounds_of-tries post (negsuc n) = refl

-- A call posts the same request at most `retries + 1` times, and at least once unless `retries` is
-- negative, under consecutive ids; it sleeps the initial delay, doubled at each further attempt,
-- between them and nowhere else; and where it stops before the last attempt, the result is none
-- that it would retry after.
pub call-Served :
    {W : Type 0} (post : Request → W → Reply × W) (c : Config) (method : Str) (params : Json)
    (s : Net W)
    → Served c.initial_delay 0 (tries c.retries) method params s (call post c method params s)
unfolding call
call-Served post c method params s =
    subst
      (λ n.
        Served c.initial_delay 0 n method params s
          (attempts post (rounds_of post c.retries) c.initial_delay 0 type_error method params s))
      (rounds_of-tries post c.retries)
      (attempts-Served post c.initial_delay method params (rounds_of post c.retries) 0 type_error s)

-- The time slept in a trace.
abbrev pub time_slept : List Event → ℕ
time_slept [] = 0
time_slept (slept d ∷ events) = d + time_slept events
time_slept (posted r ∷ events) = time_slept events

schedule_time :
    (delay a id : ℕ) (method : Str) (params : Json) (n : ℕ)
    → time_slept (schedule delay (suc a) id method params n) + delay * 2 ^ a ≡ delay * 2 ^ (a + n)
schedule_time delay a id method params zero = rw add-zero (omega arith)
schedule_time delay a id method params (suc n) =
    let ih = schedule_time delay (suc a) (id + 1) method params n in
    let shift : a + suc n ≡ suc a + n = omega arith in
    let doubled : delay * 2 ^ suc a ≡ delay * 2 ^ a + delay * 2 ^ a =
      ap (λ (t : ℕ). delay * t) (pow-suc 2 a) ∙ omega arith in
    rw shift (omega (arith, ih, doubled))

-- `n` attempts and one more sleep for 2 ^ n - 1 times the initial delay in all.
backoff_time :
    (delay id : ℕ) (method : Str) (params : Json) (n : ℕ)
    → time_slept (schedule delay 0 id method params (suc n)) + delay ≡ delay * 2 ^ n
backoff_time delay id method params n =
    let total = schedule_time delay 0 (id + 1) method params n in
    let one : delay * 2 ^ 0 ≡ delay = omega arith in
    let start : 0 + n ≡ n = omega arith in
    let power = ap (λ (t : ℕ). delay * 2 ^ t) start in omega (arith, total, one, power)

time_slept-append : (xs ys : List Event) → time_slept (xs ++ ys) ≡ time_slept xs + time_slept ys
time_slept-append [] ys = omega arith
time_slept-append (slept d ∷ xs) ys = let ih = time_slept-append xs ys in omega (arith, ih)
time_slept-append (posted r ∷ xs) ys = time_slept-append xs ys

doubled_more : (delay m j : ℕ) → delay * 2 ^ m ≤ delay * 2 ^ (m + j)
doubled_more delay m zero = let same : m + 0 ≡ m = omega arith in rw same (omega arith)
doubled_more delay m (suc j) =
    let ih = doubled_more delay m j in
    let shift : m + suc j ≡ suc (m + j) = omega arith in
    let doubled : delay * 2 ^ suc (m + j) ≡ delay * 2 ^ (m + j) + delay * 2 ^ (m + j) =
      ap (λ (t : ℕ). delay * t) (pow-suc 2 (m + j)) ∙ omega arith in
    rw shift (omega (arith, ih, doubled))

-- The sleeps of between one and `n + 1` attempts.
schedule_within :
    (delay id : ℕ) (method : Str) (params : Json) (n posts : ℕ)
    → 0 < posts
    → posts ≤ n + 1
    → time_slept (schedule delay 0 id method params posts) + delay ≤ delay * 2 ^ n
schedule_within delay id method params n zero some_posts within = absurd (omega (arith, some_posts))
schedule_within delay id method params n (suc m) some_posts within =
    let slack : m + (n - m) ≡ n = omega (arith, within) in
    let exact = backoff_time delay id method params m in
    let more = rw slack at (doubled_more delay m (n - m)) in omega (arith, exact, more)

-- A call with `n` retries, whatever the network replies, sleeps for at most 2 ^ n - 1 times the
-- initial delay in all: never as long as the initial delay times 2 ^ n, where that is not zero.
pub call_time :
    {W : Type 0} (post : Request → W → Reply × W) (c : Config) (method : Str) (params : Json)
    (s : Net W) (n : ℕ)
    → c.retries ≡ pos n
    → time_slept ((call post c method params s).1).trace + c.initial_delay
      ≤ time_slept s.trace + c.initial_delay * 2 ^ n
call_time post c method params s n retries =
    let served = call-Served post c method params s in
    let rounds : tries c.retries ≡ n + 1 = ap tries retries in
    let tried : 0 < served.posts = served.tried (omega (arith, rounds)) in
    let within : served.posts ≤ n + 1 = omega (arith, served.within, rounds) in
    let slept_here =
      schedule_within c.initial_delay s.next_id method params n served.posts tried within in
    let split =
      time_slept-append s.trace (schedule c.initial_delay 0 s.next_id method params served.posts) in
    let all = ap time_slept served.events in omega (arith, slept_here, split, all)

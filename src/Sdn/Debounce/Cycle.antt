-- ===== src/Sdn/Debounce/Cycle.antt =====
-- On the state that sdn/src/debounce.rs keeps of a cycle of requests.
use dkms.Prelude.{
  ℕ, ◌-◌, ◌<◌, ◌≤◌, ◌≡◌, refl, sym, ◌∙◌, ap, Bool, true, false, Option, none, some, List, [], ◌∷◌,
  arith, leb, choose, ◌==◌, ◌&&◌,
}
use dkms.Prelude.Assoc.{some_eq}
use dkms.Sdn.Debounce.{
  State, new, reset, request_cycle, request, flush, cancel, update_timing, shutdown, is_due, worker,
}

pub is_some : Option ℕ → Bool
is_some none = false
is_some (some x) = true

-- A recompute is pending exactly while a cycle is open, that is from its first request on, and
-- none is after the shutdown.
pub record IsValid (s : State) : Type 0 where
  pub opened : is_some s.cycle_start ≡ s.pending
  pub requested : is_some s.last_request ≡ s.pending
  pub quiet : s.closed ≡ true → s.pending ≡ false

pub data Event : Type 0 where
  requested_at : ℕ → Event
  flushed : Event
  cancelled : Event
  timed : ℕ → ℕ → Event
  shut_down : Event
  woken : ℕ → Event

pub step : State → Event → State × Bool
step s (requested_at now) = request s now
step s flushed = flush s
step s cancelled = (cancel s, false)
step s (timed window max_wait) = (update_timing s window max_wait, false)
step s shut_down = (shutdown s, false)
step s (woken now) = worker s now

pub run : State → List Event → State
run s [] = s
run s (e ∷ es) = run (step s e).0 es

reset-IsValid : (s : State) → IsValid (reset s)
unfolding reset is_some
reset-IsValid s = record { opened = refl; requested = refl; quiet = λ c. refl }

-- Each returns the state as it was, or with the cycle closed, or with a cycle open.
request_cycle-IsValid :
    (s : State) (o : Option ℕ) (now : ℕ)
    → s.closed ≡ false
    → s.cycle_start ≡ o
    → IsValid (request_cycle s o now).0
unfolding request_cycle is_some
request_cycle-IsValid s (some cs) now c e =
    choose (leb s.max_wait (now - cs)) (λ (r : State × Bool). IsValid r.0)
      (λ storm. reset-IsValid s)
      (λ young. record {
        opened = ap is_some e;
        requested = refl;
        quiet = λ d. absurd (ground (arith, c, d));
      })
request_cycle-IsValid s none now c e = record {
  opened = refl;
  requested = refl;
  quiet = λ d. absurd (ground (arith, c, d));
}

request-IsValid : (s : State) (now : ℕ) → IsValid s → IsValid (request s now).0
unfolding request
request-IsValid s now v =
    choose s.closed (λ (r : State × Bool). IsValid r.0) (λ c. v)
      (λ c.
        choose (s.window == 0) (λ (r : State × Bool). IsValid r.0) (λ z. reset-IsValid s)
          (λ n. request_cycle-IsValid s s.cycle_start now c refl))

step-IsValid : (s : State) (e : Event) → IsValid s → IsValid (step s e).0
unfolding step flush cancel update_timing shutdown worker reset is_some
step-IsValid s (requested_at now) v = request-IsValid s now v
step-IsValid s flushed v =
    choose s.pending (λ (r : State × Bool). IsValid r.0) (λ p. reset-IsValid s) (λ p. v)
step-IsValid s cancelled v = reset-IsValid s
step-IsValid s (timed window max_wait) v = record {
  opened = v.opened;
  requested = v.requested;
  quiet = v.quiet;
}
step-IsValid s shut_down v = record { opened = refl; requested = refl; quiet = λ c. refl }
step-IsValid s (woken now) v =
    choose s.closed (λ (r : State × Bool). IsValid r.0) (λ c. v)
      (λ c.
        choose (s.pending && is_due s s.last_request now) (λ (r : State × Bool). IsValid r.0)
          (λ d. reset-IsValid s) (λ d. v))

-- After any events, a recompute is pending exactly while a cycle is open, that is where its first
-- and its last request are known, and none is pending after the shutdown.
pub run-IsValid : (s : State) (es : List Event) → IsValid s → IsValid (run s es)
unfolding run
run-IsValid s [] v = v
run-IsValid s (e ∷ es) v = run-IsValid (step s e).0 es (step-IsValid s e v)

pub new-IsValid : (window max_wait : ℕ) → IsValid (new window max_wait)
unfolding new is_some
new-IsValid window max_wait = record { opened = refl; requested = refl; quiet = λ c. refl }

fresh_cycle :
    (s : State) (o : Option ℕ) (now cs : ℕ)
    → s.cycle_start ≡ o
    → 0 < s.max_wait
    → (request_cycle s o now).0.cycle_start ≡ some cs
    → now - cs < s.max_wait
unfolding request_cycle reset
fresh_cycle s (some b) now cs e m y =
    choose (leb s.max_wait (now - b))
      (λ (r : State × Bool). r.0.cycle_start ≡ some cs → now - cs < s.max_wait)
      (λ storm x. absurd (clash x)) (λ young x. ground (arith, some_eq (sym e ∙ x))) y
  where
    clash : none ≡ some cs → ⊥
    clash x = cc
fresh_cycle s none now cs e m x = omega (arith, some_eq x)

-- After a request at the time `now`, an open cycle began less than `max_wait` before: a cycle that
-- is as old as that is closed by the request, however many requests it had. The debouncer is not
-- shut down, and `max_wait` is not zero.
pub request_fresh :
    (s : State) (now cs : ℕ)
    → s.closed ≡ false
    → 0 < s.max_wait
    → (request s now).0.cycle_start ≡ some cs
    → now - cs < s.max_wait
unfolding request reset
request_fresh s now cs c m =
    choose s.closed (λ (r : State × Bool). r.0.cycle_start ≡ some cs → now - cs < s.max_wait)
      (λ d. absurd (ground (arith, c, d)))
      (λ d.
        choose (s.window == 0)
          (λ (r : State × Bool). r.0.cycle_start ≡ some cs → now - cs < s.max_wait)
          (λ z x. absurd (clash x)) (λ n. fresh_cycle s s.cycle_start now cs refl m))
  where
    clash : none ≡ some cs → ⊥
    clash x = cc

-- A request that finds a cycle open for `max_wait` or longer closes it and fires, where the
-- debouncer is not shut down.
pub request_fires :
    (s : State) (now cs : ℕ)
    → s.closed ≡ false
    → s.cycle_start ≡ some cs
    → s.max_wait ≤ now - cs
    → request s now ≡ (reset s, true)
unfolding request request_cycle
request_fires s now cs c e m =
    choose s.closed (λ (r : State × Bool). r ≡ (reset s, true)) (λ d. absurd (ground (arith, c, d)))
      (λ d.
        choose (s.window == 0) (λ (r : State × Bool). r ≡ (reset s, true)) (λ z. refl)
          (λ n.
            ap (λ o. request_cycle s o now) e
            ∙ choose (leb s.max_wait (now - cs)) (λ (r : State × Bool). r ≡ (reset s, true))
                (λ l. refl) (λ l. absurd (ground arith))))

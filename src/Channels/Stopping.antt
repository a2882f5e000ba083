-- ===== src/Channels/Stopping.antt =====
-- Whether a stop that waits for the backlog returns, and what the worker has handled then.
use starlite.Prelude.{
  ℕ, zero, suc, ◌+◌, ◌-◌, ◌≡◌, refl, sym, ap, ◌∙◌, Bool, true, false, Option, none, some, ok, List,
  [], ◌∷◌, map, length, length-drop, drop, take, nat_eq, leb, arith, Bool-cases, inl, inr,
  if◌then◌else◌,
}
use starlite.Channels.Subscriber.{
  Event, Subscriber, backoff, dropleft, new_subscriber, start_in_background, worker, stop,
}
use starlite.Channels.Last.{last}
use starlite.Channels.Backlog.{put_all, bounded, sliding, put_all-bounded, put_all-sliding}

take-map : (n : ℕ) (xs : List Event) → take n (map some xs) ≡ map some (take n xs)
take-map zero xs = refl
take-map (suc n) [] = refl
take-map (suc n) (x ∷ xs) = ap (λ l. some x ∷ l) (take-map n xs)

drop-map : (n : ℕ) (xs : List Event) → drop n (map some xs) ≡ map some (drop n xs)
drop-map zero xs = refl
drop-map (suc n) [] = refl
drop-map (suc n) (x ∷ xs) = drop-map n xs

length-map : (xs : List Event) → length (map some xs) ≡ length xs
length-map [] = refl
length-map (x ∷ xs) = ap suc (length-map xs)

worker-bounded :
    (n : ℕ) (xs : List Event) (running : Bool)
    → worker (map some xs) (bounded n (map some xs) running) ≡ (xs, bounded n [] running)
unfolding worker
worker-bounded n [] running = refl
worker-bounded n (x ∷ xs) running =
    let one_less : suc (length (map some xs)) - 1 ≡ length (map some xs) = omega arith in
    rw one_less (rw (worker-bounded n xs running))

worker-sliding :
    (n u : ℕ) (xs : List Event) (running : Bool)
    → worker (map some xs) (sliding n (map some xs) u running)
      ≡ (xs, sliding n [] (u - length xs) running)
unfolding worker
worker-sliding n u [] running = ap (λ (v : ℕ). ([], sliding n [] v running)) (omega arith)
worker-sliding n u (x ∷ xs) running =
    rw (worker-sliding n (u - 1) xs running)
      (ap (λ (v : ℕ). (x ∷ xs, sliding n [] v running)) (omega arith))

stop-bounded :
    (n : ℕ) (xs : List Event)
    → stop true (bounded n (map some xs) true) ≡ some (xs, bounded n [] false)
unfolding stop
stop-bounded n xs = rw (worker-bounded n xs true)

stop-sliding :
    (n u : ℕ) (xs : List Event)
    → stop true (sliding n (map some xs) u true)
      ≡ (if nat_eq (u - length xs) 0 then some (xs, sliding n [] (u - length xs) false) else none)
unfolding stop
stop-sliding n u xs = rw (worker-sliding n u xs true)

-- With `backoff`, a running subscriber that got any events before its worker handled one stops
-- when it is to wait for the backlog: the worker has handled the oldest ones then, as many as the
-- backlog holds.
pub stop-backoff :
    (n : ℕ) (xs : List Event) (s : Subscriber)
    → start_in_background (new_subscriber (some (suc n)) backoff) ≡ ok s
    → stop true (put_all (map some xs) s) ≡ some (take (suc n) xs, bounded n [] false)
unfolding new_subscriber start_in_background
stop-backoff n xs s h =
    let same : bounded n [] true ≡ s = cc in
    ap (λ r. stop true (put_all (map some xs) r)) (sym same)
    ∙ (ap (stop true) (
          put_all-bounded n (map some xs) [] true (omega arith)
          ∙ ap (λ l. bounded n l true) (take-map (suc n) xs))
        ∙ stop-bounded n (take (suc n) xs))

last-map : (n : ℕ) (xs : List Event) → last n (map some xs) ≡ map some (last n xs)
last-map n xs = rw (length-map xs) (drop-map (length xs - n) xs)

-- With `dropleft` and a bounded backlog, a stop that waits for the backlog returns if and only if
-- the running subscriber got no more events than the backlog holds before its worker handled one,
-- and then the worker has handled all of them.
pub stop-dropleft :
    (n : ℕ) (xs : List Event) (s : Subscriber)
    → start_in_background (new_subscriber (some (suc n)) dropleft) ≡ ok s
    → stop true (put_all (map some xs) s)
      ≡ (if leb (length xs) (suc n) then some (xs, sliding n [] 0 false) else none)
unfolding new_subscriber start_in_background
stop-dropleft n xs s h =
    let same : sliding n [] 0 true ≡ s = cc in
    ap (λ r. stop true (put_all (map some xs) r)) (sym same)
    ∙ (ap (stop true) (
          put_all-sliding n (map some xs) [] 0 true (omega arith) ∙ λ i.
          sliding n (last-map (suc n) xs i) (counted i) true)
        ∙ (stop-sliding n (length xs) (last (suc n) xs) ∙ left))
  where
    counted : 0 + length (map some xs) ≡ length xs
    counted = omega (arith, length-map xs)

    left :
        ◌≡◌ {A = Option (List Event × Subscriber)}
          (if nat_eq (length xs - length (last (suc n) xs)) 0
            then some (last (suc n) xs, sliding n [] (length xs - length (last (suc n) xs)) false)
            else none)
          (if leb (length xs) (suc n) then some (xs, sliding n [] 0 false) else none)
    left = elim (Bool-cases (leb (length xs) (suc n))) [
      | inl fits ↦
          let nothing : length xs - suc n ≡ 0 = ground arith in
          let done : length xs - length xs ≡ 0 = omega arith in rw fits (rw nothing (rw done))
      | inr over ↦
          let some_left : nat_eq (length xs - length (last (suc n) xs)) 0 ≡ false =
            ground (arith, length-drop (length xs - suc n) xs) in
          rw over (rw some_left)
    ]

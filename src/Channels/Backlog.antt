-- ===== src/Channels/Backlog.antt =====
-- What the backlog of a subscriber holds under each strategy, and whether a stop that waits for the
-- backlog returns.
use mathlib.Core.List.{append-nil, append_assoc}
use starlite.Prelude.{
  ℕ, zero, suc, ◌+◌, ◌≤◌, ◌<◌, ◌≡◌, refl, sym, ap, ◌∙◌, Bool, true, false, Option, none, some, List,
  [], ◌∷◌, ◌++◌, length, length-append, take, nat_eq, leb, arith, Bool-cases, inl, inr,
}
use starlite.Channels.Last.{last, last_all, last-append, length-last}
use starlite.Channels.Subscriber.{Event, Subscriber, put_nowait}

-- Putting items one after another, as `_sub_worker` does.
pub put_all : List (Option Event) → Subscriber → Subscriber
put_all [] s = s
put_all (item ∷ items) s = put_all items (put_nowait item s).1

take_full : (n : ℕ) (xs ys : List (Option Event)) → length xs ≡ n → take n (xs ++ ys) ≡ xs
take_full zero [] [] h = refl
take_full zero [] (y ∷ ys) h = refl
take_full zero (x ∷ xs) ys h = cc
take_full (suc n) [] ys h = cc
take_full (suc n) (x ∷ xs) ys h = ap (λ l. x ∷ l) (take_full n xs ys (omega arith))

take_all : (n : ℕ) (xs : List (Option Event)) → length xs ≤ n → take n xs ≡ xs
take_all zero [] h = refl
take_all zero (x ∷ xs) h = absurd (omega arith)
take_all (suc n) [] h = refl
take_all (suc n) (x ∷ xs) h = ap (λ l. x ∷ l) (take_all n xs (omega arith))

-- A queue of bounded size, all of whose puts but those of its items are done.
abbrev pub bounded : ℕ → List (Option Event) → Bool → Subscriber
bounded n items running = record {
  items = items;
  maxsize = suc n;
  maxlen = none;
  unfinished = length items;
  is_running = running;
}

-- A queue over a deque of bounded length, with a number of puts that are not done.
abbrev pub sliding : ℕ → List (Option Event) → ℕ → Bool → Subscriber
sliding n items unfinished running = record {
  items = items;
  maxsize = 0;
  maxlen = some (suc n);
  unfinished = unfinished;
  is_running = running;
}

sized : (n : ℕ) → nat_eq (suc n) 0 ≡ false
sized n = ground arith

put_room :
    (n : ℕ) (items : List (Option Event)) (item : Option Event) (running : Bool)
    → length items < suc n
    → (put_nowait item (bounded n items running)).1 ≡ bounded n (items ++ item ∷ []) running
unfolding put_nowait
put_room n items item running h =
    let room : leb (suc n) (length items) ≡ false = ground arith in
    rw (sized n) (rw room (rw (length-append items (item ∷ []))))

put_full :
    (n : ℕ) (items : List (Option Event)) (item : Option Event) (running : Bool)
    → length items ≡ suc n
    → (put_nowait item (bounded n items running)).1 ≡ bounded n items running
unfolding put_nowait
put_full n items item running h =
    let full : leb (suc n) (length items) ≡ true = ground arith in rw (sized n) (rw full)

-- With `backoff` the backlog keeps the oldest items, and what does not fit is dropped.
pub put_all-bounded :
    (n : ℕ) (items old : List (Option Event)) (running : Bool)
    → length old ≤ suc n
    → put_all items (bounded n old running) ≡ bounded n (take (suc n) (old ++ items)) running
unfolding put_all
put_all-bounded n [] old running h = rw (append-nil old) (rw (take_all (suc n) old h))
put_all-bounded n (item ∷ items) old running h = elim (Bool-cases (leb (suc n) (length old))) [
  | inl full ↦
      let exact : length old ≡ suc n = ground arith in
      rw (put_full n old item running exact) (
        put_all-bounded n items old running h
        ∙ ap (λ l. bounded n l running)
            (take_full (suc n) old items exact ∙ sym (take_full (suc n) old (item ∷ items) exact)))
  | inr room ↦
      let less : length old < suc n = ground arith in
      rw (put_room n old item running less) (
        put_all-bounded n items (old ++ item ∷ []) running
          (rw (length-append old (item ∷ [])) (omega arith))
        ∙ ap (λ l. bounded n (take (suc n) l) running) (append_assoc old (item ∷ []) items))
]

-- With `dropleft` the backlog keeps the newest items, and every put is accepted.
pub put_all-sliding :
    (n : ℕ) (items old : List (Option Event)) (u : ℕ) (running : Bool)
    → length old ≤ suc n
    → put_all items (sliding n old u running)
      ≡ sliding n (last (suc n) (old ++ items)) (u + length items) running
unfolding put_all put_nowait
put_all-sliding n [] old u running h =
    rw (append-nil old)
      (rw (last_all (suc n) old h) (ap (λ v. sliding n old v running) (omega arith)))
put_all-sliding n (item ∷ items) old u running h =
    put_all-sliding n items (last (suc n) (old ++ item ∷ [])) (u + 1) running
      (length-last (suc n) (old ++ item ∷ []))
    ∙ λ i. sliding n (last-append n old items item h i) (one_more i) running
  where
    one_more : u + 1 + length items ≡ u + suc (length items)
    one_more = omega arith

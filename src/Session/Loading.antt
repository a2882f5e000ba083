-- ===== src/Session/Loading.antt =====
-- That a session that was stored in cookies is loaded from them.
use starlite.Prelude.{
  ℕ, zero, suc, ◌*◌, ◌≤◌, ◌≡◌, refl, sym, ap, ◌∙◌, Bool, true, false, Option, some, List, [], ◌∷◌,
  ◌++◌, length, length-drop, contains, keep, is_nil, take, drop, take-drop, ◌==◌, nat_Eq, list_Eq,
  list_eq_iff, arith, Bool-cases, inl, inr, beq_refl,
}
use starlite.Prelude.Dict.{Dict, lookup, keys, values, has_key, NodupKeys, contains-keys}
use starlite.Prelude.Text.{Text}
use starlite.Prelude.Sorting.{Sorted, sorted_id}
use starlite.Session.{
  chunks, chunk_size, create_session_cookies, numbered_cookies, matches, get_cookie_keys, joined,
  value_of, store_in_message, load_from_connection,
}
use starlite.Session.Keys.{
  matches_self, numbered_cookies-Sorted, numbered_cookies-NodupKeys, AllMatch,
  numbered_cookies-AllMatch,
}

abbrev pub concat : List Text → Text
concat [] = []
concat (datum ∷ data') = datum ++ concat data'

concat-chunks :
    (fuel n : ℕ) (text : Text) → length text ≤ fuel → concat (chunks fuel (suc n) text) ≡ text
unfolding chunks
concat-chunks zero n [] h = refl
concat-chunks (suc fuel) n [] h = refl
concat-chunks zero n (c ∷ cs) h = absurd (omega arith)
concat-chunks (suc fuel) n (c ∷ cs) h =
    ap (λ l. c ∷ (take n cs ++ l))
      (concat-chunks fuel n (drop n cs) (rw (length-drop n cs) (omega arith)))
    ∙ ap (λ l. c ∷ l) (take-drop n cs)

length-chunks :
    (k fuel : ℕ) (text : Text)
    → length text ≤ k * chunk_size
    → length (chunks fuel chunk_size text) ≤ k
unfolding chunks
length-chunks k zero [] h = omega arith
length-chunks k (suc fuel) [] h = omega arith
length-chunks k zero (c ∷ cs) h = omega arith
length-chunks zero (suc fuel) (c ∷ cs) h = absurd (omega arith)
length-chunks (suc k) (suc fuel) (c ∷ cs) h =
    let rest =
      length-chunks k fuel (drop chunk_size (c ∷ cs))
        (rw (length-drop chunk_size (c ∷ cs)) (omega arith)) in
    omega arith

keep-append :
    (key : Text) (xs ys : List Text)
    → keep (matches key) (xs ++ ys) ≡ keep (matches key) xs ++ keep (matches key) ys
keep-append key [] ys = refl
keep-append key (x ∷ xs) ys = elim (Bool-cases (matches key x)) [
  | inl m ↦ rw m (ap (λ l. x ∷ l) (keep-append key xs ys))
  | inr m ↦ rw m (keep-append key xs ys)
]

keep_all : (key : Text) (names : List Text) → AllMatch key names → keep (matches key) names ≡ names
keep_all key [] h = refl
keep_all key (name ∷ names) (m, h) = rw m (ap (λ l. name ∷ l) (keep_all key names h))

keys-append : (xs ys : Dict Text Text) → keys (xs ++ ys) ≡ keys xs ++ keys ys
keys-append [] ys = refl
keys-append ((k, v) ∷ xs) ys = ap (λ l. k ∷ l) (keys-append xs ys)

lookup_later :
    (name : Text) (before after : Dict Text Text)
    → has_key name before ≡ false
    → lookup name (before ++ after) ≡ lookup name after
lookup_later name [] after h = refl
lookup_later name ((k, v) ∷ before) after h = ground (arith, lookup_later name before after)

matching-fresh :
    (key name : Text) (others : Dict Text Text)
    → matches key name ≡ true
    → keep (matches key) (keys others) ≡ []
    → has_key name others ≡ false
matching-fresh key name [] m h = refl
matching-fresh key name ((k, v) ∷ others) m h = elim (Bool-cases (matches key k)) [
  | inl m' ↦
      let bad : ◌≡◌ {A = List Text} (k ∷ keep (matches key) (keys others)) [] = rw m' at h in cc
  | inr m' ↦ elim (Bool-cases (k == name)) [
    | inl same ↦
        let e : k ≡ name = (list_eq_iff k name).0 same in
        let bad : ◌≡◌ {A = Bool} false true = sym m' ∙ (ap (matches key) e ∙ m) in cc
    | inr other ↦ rw other (matching-fresh key name others m (rw m' at h))
  ]
]

joined_later :
    (key : Text) (others cookies : Dict Text Text) (names : List Text)
    → keep (matches key) (keys others) ≡ []
    → AllMatch key names
    → joined (others ++ cookies) names ≡ joined cookies names
unfolding joined
joined_later key others cookies [] none_matches h = refl
joined_later key others cookies (name ∷ names) none_matches (m, h) =
    rw (lookup_later name others cookies (matching-fresh key name others m none_matches)) (
      ap (λ l. value_of (lookup name cookies) ++ l)
        (joined_later key others cookies names none_matches h))

joined_cons :
    (k v : Text) (cookies : Dict Text Text) (names : List Text)
    → contains k names ≡ false
    → joined ((k, v) ∷ cookies) names ≡ joined cookies names
unfolding joined
joined_cons k v cookies [] h = refl
joined_cons k v cookies (name ∷ names) h = elim (Bool-cases (k == name)) [
  | inl same ↦
      let e : name ≡ k = sym ((list_eq_iff k name).0 same) in
      let bad : (name == k) ≡ true = (list_eq_iff name k).1 e in ground arith
  | inr other ↦
      rw other (
        ap (λ l. value_of (lookup name cookies) ++ l)
          (joined_cons k v cookies names (ground arith)))
]

joined-keys :
    (cookies : Dict Text Text)
    → NodupKeys cookies
    → joined cookies (keys cookies) ≡ concat (values cookies)
unfolding joined
joined-keys [] h = refl
joined-keys ((k, v) ∷ cookies) (fresh, h) = rw (beq_refl k) (
    ap (λ l. v ++ l)
      (joined_cons k v cookies (keys cookies) (contains-keys k cookies ∙ fresh)
        ∙ joined-keys cookies h))

-- What the cookies of a session have in common, whether there is one or there are several.
record AreCookies (key : Text) (data' : List Text) (cookies : Dict Text Text) : Type 0 where
  match : AllMatch key (keys cookies)
  in_order : Sorted (keys cookies)
  nodup : NodupKeys cookies
  hold : values cookies ≡ data'

values-numbered_cookies :
    (key : Text) (i : ℕ) (data' : List Text) → values (numbered_cookies key i data') ≡ data'
unfolding numbered_cookies
values-numbered_cookies key i [] = refl
values-numbered_cookies key i (datum ∷ data') =
    ap (λ l. datum ∷ l) (values-numbered_cookies key (suc i) data')

numbered_cookies-AreCookies :
    (key : Text) (data' : List Text)
    → length data' ≤ 10
    → AreCookies key data' (numbered_cookies key 0 data')
numbered_cookies-AreCookies key data' few = record {
  match = numbered_cookies-AllMatch key 0 data' (omega arith);
  in_order = numbered_cookies-Sorted key 0 data' (omega arith);
  nodup = numbered_cookies-NodupKeys key 0 data' (omega arith);
  hold = values-numbered_cookies key 0 data';
}

create_session_cookies-AreCookies :
    (key : Text) (data' : List Text)
    → length data' ≤ 10
    → AreCookies key data' (create_session_cookies key data')
unfolding create_session_cookies
create_session_cookies-AreCookies key [] few = numbered_cookies-AreCookies key [] few
create_session_cookies-AreCookies key (datum ∷ []) few = record {
  match = (matches_self key, tt);
  in_order = (λ a m. cc, tt);
  nodup = (refl, tt);
  hold = refl;
}
create_session_cookies-AreCookies key (datum ∷ second ∷ data') few =
    numbered_cookies-AreCookies key (datum ∷ second ∷ data') few

get_cookie_keys-append :
    (key : Text) (data' : List Text) (others cookies : Dict Text Text)
    → keep (matches key) (keys others) ≡ []
    → AreCookies key data' cookies
    → get_cookie_keys key (others ++ cookies) ≡ keys cookies
unfolding get_cookie_keys
get_cookie_keys-append key data' others cookies none_matches are = rw (keys-append others cookies) (
    rw (keep-append key (keys others) (keys cookies)) (
      rw none_matches
        (rw (keep_all key (keys cookies) are.match) (sorted_id (keys cookies) are.in_order))))

cookies_filled :
    (cookies : Dict Text Text) → is_nil (values cookies) ≡ false → is_nil (keys cookies) ≡ false
cookies_filled [] h = h
cookies_filled ((k, v) ∷ cookies) h = refl

chunks_filled :
    (text : Text) → 1 ≤ length text → is_nil (chunks (length text) chunk_size text) ≡ false
unfolding chunks
chunks_filled [] h = absurd (omega arith)
chunks_filled (c ∷ cs) h = refl

module _ {Data : Type 0} (encode : Data → Text) (decode : Text → Option Data) where
  -- Where the encoding of a session has an inverse, is not empty and fits into ten cookies, and
  -- the client holds no other cookies that match, the session that was stored in the cookies of a
  -- response is loaded from the client's cookies.
  pub load_from_connection-store_in_message :
      (key : Text) (session : Data) (before others : Dict Text Text)
      → decode (encode session) ≡ some session
      → 1 ≤ length (encode session)
      → length (encode session) ≤ 10 * chunk_size
      → keep (matches key) (keys others) ≡ []
      → load_from_connection encode decode key
          (others ++ (store_in_message encode decode key (some session) before).0)
        ≡ some session
  unfolding load_from_connection store_in_message
  load_from_connection-store_in_message key session before others inverse filled fits none_matches =
      let encoded = encode session in
      let data' = chunks (length encoded) chunk_size encoded in
      let cookies = create_session_cookies key data' in
      let are =
        create_session_cookies-AreCookies key data'
          (length-chunks 10 (length encoded) encoded fits) in
      let some_keys = cookies_filled cookies (rw are.hold (chunks_filled encoded filled)) in
      rw (get_cookie_keys-append key data' others cookies none_matches are) (
        rw some_keys (
          rw (joined_later key others cookies (keys cookies) none_matches are.match) (
            rw (joined-keys cookies are.nodup) (
              rw are.hold
                (rw (concat-chunks (length encoded) 4031 encoded (omega arith)) inverse)))))

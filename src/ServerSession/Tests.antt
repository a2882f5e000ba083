-- ===== src/ServerSession/Tests.antt =====
-- Two clients of server side sessions; a session is a text.
use starlite.Prelude.{
  ◌≡◌, ◌≢◌, refl, Bool, true, false, none, some, [], ◌∷◌, Result, ok, sym, ◌∙◌, ◌==◌, list_Eq,
  nat_Eq, list_eq_iff,
}
use starlite.Prelude.Text.{Text, codes}
use starlite.Store.{MemoryStore}
use starlite.ServerSession.{Config, empty, present, Serializer, handle, load_from_connection}
use starlite.ServerSession.Visits.{
  Visit, Stranger, with_cookie, visited, visit_all, load_from_connection-handle,
  load_from_connection-cleared,
}

differ : (a b : Text) → (a == b) ≡ false → a ≢ b
differ a b h e =
    let same = (list_eq_iff a b).1 e in let f : ◌≡◌ {A = Bool} true false = sym same ∙ h in cc

some_differ : (a b : Text) → (a == b) ≡ false → some a ≢ some b
some_differ a b h e = differ a b h (let f : a ≡ b = cc in f)

abbrev plain : Serializer Text Text
plain = record { serialize_data = λ s. b'=' ∷ s; deserialize_data = stripped; empty_dict = [] }
  where
    stripped : Text → Result Text
    stripped [] = ok []
    stripped (c ∷ s) = ok s

abbrev hour : Config
hour = record { max_age = some 3600; renew_on_access = false }

abbrev ann : Visit Text
ann = record {
  now = 0;
  later = 1;
  generated = codes "a1";
  generated' = codes "a2";
  app = λ s. present (b'x' ∷ s);
  connection = record { cookie = none; session_id = none };
}

abbrev bob : Visit Text
bob = record {
  now = 2;
  later = 3;
  generated = codes "b1";
  generated' = codes "b2";
  app = λ s. present (codes "bob");
  connection = with_cookie (codes "b0");
}

abbrev ann_leaves : Visit Text
ann_leaves = record ann { app = λ s. empty; connection = with_cookie (codes "a1") }

bob_is_Stranger : Stranger (codes "a1") bob
bob_is_Stranger = (
  differ (codes "b1") (codes "a1") refl,
  differ (codes "b2") (codes "a1") refl,
  (some_differ (codes "b0") (codes "a1") refl, λ e. cc),
)

load_from_connection-handle_example :
    (load_from_connection plain hour 9
      (with_cookie (codes "a1"))
      (visit_all plain hour (bob ∷ []) (visited plain hour ann []).1)).0
    ≡ ok (codes "x")
unfolding handle
load_from_connection-handle_example =
    load_from_connection-handle plain hour ann (bob ∷ []) 9 [] (codes "x")
      (record { value = codes "a1"; expires_now = false }) [] refl refl refl (bob_is_Stranger, tt)
      refl refl

abbrev ann_was_here : MemoryStore Text
ann_was_here = (codes "a1", record { expires_at = none; payload = codes "=x" }) ∷ []

load_from_connection-cleared_example :
    (load_from_connection plain hour 9
      (with_cookie (codes "a1"))
      (visit_all plain hour (bob ∷ []) (visited plain hour ann_leaves ann_was_here).1)).0
    ≡ ok []
unfolding handle
load_from_connection-cleared_example =
    load_from_connection-cleared plain hour ann_leaves (bob ∷ []) 9 (codes "a1") (codes "x")
      (record { value = codes "null"; expires_now = true }) ann_was_here refl refl refl refl
      (bob_is_Stranger, tt)

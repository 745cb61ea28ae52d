-- ===== src/Config/Env/Edits.antt =====
-- crates/midgard-config/src/env.rs: changes of the nodes at some paths of a tree.
use midgard_rs.Common.{
  ◌≡◌, refl, sym, ap, ◌∙◌, true, false, List, [], ◌∷◌, ◌++◌, map, Result, ok, err, ◌>>=◌,
}
use mathlib.Core.List.{append_assoc}
use midgard_rs.Common.Text.{Text, text_eq, text_eq_iff}
use midgard_rs.Config.Json.{
  Value, Fields, null, boolean, integer, float, string, array, object, no_fields, field,
}
use midgard_rs.Config.Env.{Failure, update, update_fields}

-- No later field of an object has the key of an earlier one.
abbrev IsNew : Text → Fields → Type 0
IsNew key no_fields = Unit
IsNew key (field k v fs) = (text_eq key k ≡ false) × IsNew key fs

unfoldable mutual
  pub IsMap : Value → Type 0
  IsMap (object fs) = AreMaps fs
  IsMap null = Unit
  IsMap (boolean b) = Unit
  IsMap (integer n) = Unit
  IsMap (float x) = Unit
  IsMap (string s) = Unit
  IsMap (array vs) = Unit

  pub AreMaps : Fields → Type 0
  AreMaps no_fields = Unit
  AreMaps (field k v fs) = IsNew k fs × IsMap v × AreMaps fs

pub bind_assoc :
    {A B C : Type 0} (r : Result Failure A) (f : A → Result Failure B) (g : B → Result Failure C)
    → ((r >>= f) >>= g) ≡ (r >>= λ a. f a >>= g)
bind_assoc (err e) f g = refl
bind_assoc (ok a) f g = refl

pub bind_cong :
    {A B : Type 0} (r : Result Failure A) (f g : A → Result Failure B)
    → ((a : A) → f a ≡ g a)
    → (r >>= f) ≡ (r >>= g)
bind_cong (err e) f g h = refl
bind_cong (ok a) f g h = h a

pub bind_ok : {A : Type 0} (r : Result Failure A) → (r >>= ok) ≡ r
bind_ok (err e) = refl
bind_ok (ok a) = refl

-- Changes of the nodes at paths, one after the other.
abbrev pub run : List (List Text × (Value → Result Failure Value)) → Value → Result Failure Value
run [] v = ok v
run ((q, f) ∷ es) v = update q f v >>= run es

pub run-append :
    (es gs : List (List Text × (Value → Result Failure Value))) (v : Value)
    → run (es ++ gs) v ≡ (run es v >>= run gs)
run-append [] gs v = refl
run-append ((q, f) ∷ es) gs v =
    bind_cong (update q f v) (run (es ++ gs)) (λ w. run es w >>= run gs) (run-append es gs)
    ∙ sym (bind_assoc (update q f v) (run es) (run gs))

abbrev pub under :
    List Text
    → List Text × (Value → Result Failure Value)
    → List Text × (Value → Result Failure Value)
under p (q, f) = (p ++ q, f)

-- Fields behind others.
abbrev pub behind : Fields → Fields → Fields
behind no_fields gs = gs
behind (field k v fs) gs = field k v (behind fs gs)

pub behind_assoc : (fs gs hs : Fields) → behind (behind fs gs) hs ≡ behind fs (behind gs hs)
behind_assoc no_fields gs hs = refl
behind_assoc (field k v fs) gs hs = ap (field k v) (behind_assoc fs gs hs)

-- No field in front has the key.
abbrev Misses : Fields → Text → Type 0
Misses no_fields key = Unit
Misses (field k v fs) key = (text_eq k key ≡ false) × Misses fs key

text_eq_self : (s : Text) → text_eq s s ≡ true
text_eq_self s = (text_eq_iff s s).1 refl

update_fields-behind :
    (k : Text) (q : List Text) (f : Value → Result Failure Value) (pre : Fields) (v : Value)
    (rest : Fields)
    → Misses pre k
    → update_fields k q f (behind pre (field k v rest))
      ≡ (update q f v >>= λ w. ok (behind pre (field k w rest)))
unfolding update_fields update
update_fields-behind k q f no_fields v rest h = rw (update_fields, text_eq_self k) refl
update_fields-behind k q f (field j u pre) v rest (e, h) =
    rw (update_fields, e, update_fields-behind k q f pre v rest h)
      (bind_assoc (update q f v) (λ w. ok (behind pre (field k w rest))) (λ gs. ok (field j u gs)))

-- Edits of one field of an object are edits of its value.
pub run-under :
    (k : Text) (es : List (List Text × (Value → Result Failure Value))) (pre : Fields) (v : Value)
    (rest : Fields)
    → Misses pre k
    → run (map (under (k ∷ [])) es) (object (behind pre (field k v rest)))
      ≡ (run es v >>= λ w. ok (object (behind pre (field k w rest))))
unfolding update update_fields
run-under k [] pre v rest h = refl
run-under k ((q, f) ∷ es) pre v rest h =
    ap (λ r. (r >>= λ gs. ok (object gs)) >>= run (map (under (k ∷ [])) es))
      (update_fields-behind k q f pre v rest h)
    ∙ by_result (update q f v) (λ w. run-under k es pre w rest h)
  where
    by_result :
        (r : Result Failure Value)
        → ((w : Value)
            → run (map (under (k ∷ [])) es) (object (behind pre (field k w rest)))
              ≡ (run es w >>= λ z. ok (object (behind pre (field k z rest)))))
        → (((r >>= λ w. ok (behind pre (field k w rest))) >>= λ gs. ok (object gs))
            >>= run (map (under (k ∷ [])) es))
          ≡ ((r >>= run es) >>= λ w. ok (object (behind pre (field k w rest))))
    by_result (err e) later = refl
    by_result (ok w) later = later w

pub map_append :
    {A B : Type 0} (f : A → B) (xs ys : List A) → map f (xs ++ ys) ≡ map f xs ++ map f ys
map_append f [] ys = refl
map_append f (x ∷ xs) ys = ap (λ zs. f x ∷ zs) (map_append f xs ys)

pub map-under :
    (path : List Text) (k : Text) (es : List (List Text × (Value → Result Failure Value)))
    → map (under path) (map (under (k ∷ [])) es) ≡ map (under (path ++ k ∷ [])) es
map-under path k [] = refl
map-under path k ((q, f) ∷ es) =
    ap (λ p. (p, f) ∷ map (under path) (map (under (k ∷ [])) es))
      (sym (append_assoc path (k ∷ []) q))
    ∙ ap (λ xs. ((path ++ k ∷ []) ++ q, f) ∷ xs) (map-under path k es)

pub map-id : (es : List (List Text × (Value → Result Failure Value))) → map (under []) es ≡ es
map-id [] = refl
map-id (e ∷ es) = ap (λ xs. e ∷ xs) (map-id es)

-- No field in front has the key of one behind.
abbrev pub AllMiss : Fields → Fields → Type 0
AllMiss pre no_fields = Unit
AllMiss pre (field k v fs) = Misses pre k × AllMiss pre fs

pub nothing_missed : (fs : Fields) → AllMiss no_fields fs
nothing_missed no_fields = tt
nothing_missed (field k v fs) = (tt, nothing_missed fs)

Misses-last :
    (k key : Text) (w : Value) (pre : Fields)
    → Misses pre key
    → text_eq k key ≡ false
    → Misses (behind pre (field k w no_fields)) key
Misses-last k key w no_fields h e = (e, tt)
Misses-last k key w (field j u pre) (d, h) e = (d, Misses-last k key w pre h e)

pub AllMiss-next :
    (k : Text) (w : Value) (pre fs : Fields)
    → AllMiss pre fs
    → IsNew k fs
    → AllMiss (behind pre (field k w no_fields)) fs
AllMiss-next k w pre no_fields a n = tt
AllMiss-next k w pre (field j u fs) (m, a) (e, n) =
    (Misses-last k j w pre m e, AllMiss-next k w pre fs a n)

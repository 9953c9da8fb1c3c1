-- ===== src/Tasks/Codec/Assign.antt =====
-- tools/web/task_store.h: `parameters[key] = value` on the map of a record, and the order of its keys.
use resonantia.Tasks.{parameter}
use resonantia.Directory.{bytes_eq_self}
use resonantia.Prelude.{
  bytes_eq, some, arith, refl, Bool-cases, Bytes, List, [], false, if◌then◌else◌, inl, inr, true,
  ◌++◌, ◌∷◌, ◌≡◌,
}
use resonantia.Tasks.Codec.{bytes_less}
use resonantia.Tasks.Codec.RoundTrip.{Below, InOrder}

-- A key that is there stays, with the new value.
unfoldable pub assign : Bytes → Bytes → List (Bytes × Bytes) → List (Bytes × Bytes)
assign key value [] = (key, value) ∷ []
assign key value ((k, v) ∷ ps) =
    let rest = assign key value ps in
    if bytes_less key k
    then (key, value) ∷ (k, v) ∷ ps
    else if bytes_less k key
    then (k, v) ∷ rest
    else (k, value) ∷ ps

bytes_less_trans :
    (a b c : Bytes) → bytes_less a b ≡ true → bytes_less b c ≡ true → bytes_less a c ≡ true
unfolding bytes_less
bytes_less_trans a [] [] h k = cc
bytes_less_trans [] (y ∷ b) (z ∷ c) h k = refl
bytes_less_trans [] [] (z ∷ c) h k = cc
bytes_less_trans (x ∷ a) [] c h k = cc
bytes_less_trans a (y ∷ b) [] h k = cc
bytes_less_trans (x ∷ a) (y ∷ b) (z ∷ c) h k = ground (arith, bytes_less_trans a b c)

Below-append :
    (x key value : Bytes) (b : List (Bytes × Bytes))
    → Below x b
    → bytes_less key x ≡ true
    → Below x (b ++ (key, value) ∷ [])
Below-append x key value [] h k = (k, tt)
Below-append x key value (p ∷ b) h k = (h.0, Below-append x key value b h.1 k)

Below-split :
    (x key value : Bytes) (b : List (Bytes × Bytes))
    → Below x (b ++ (key, value) ∷ [])
    → Below x b × (bytes_less key x ≡ true)
Below-split x key value [] h = (tt, h.0)
Below-split x key value (p ∷ b) h =
    let (first, last) = Below-split x key value b h.1 in ((h.0, first), last)

-- What stands in front matters by what it lies below alone.
InOrder-weaken :
    (b b' ps : List (Bytes × Bytes))
    → ((x : Bytes) → Below x b → Below x b')
    → InOrder b ps
    → InOrder b' ps
InOrder-weaken b b' [] f h = tt
InOrder-weaken b b' ((k, v) ∷ ps) f h = (
  f k h.0,
  InOrder-weaken (b ++ (k, v) ∷ []) (b' ++ (k, v) ∷ []) ps
      (λ x e. let (first, last) = Below-split x k v b e in Below-append x k v b' (f x first) last)
      h.1,
)

pub assign-InOrder :
    (key value : Bytes) (b ps : List (Bytes × Bytes))
    → Below key b
    → InOrder b ps
    → InOrder b (assign key value ps)
unfolding assign
assign-InOrder key value b [] h o = (h, tt)
assign-InOrder key value b ((k, v) ∷ ps) h o = elim (Bool-cases (bytes_less key k)) [
  | inl e ↦ rw e (
    h,
    (
      Below-append k key value b o.0 e,
      InOrder-weaken (b ++ (k, v) ∷ []) ((b ++ (key, value) ∷ []) ++ (k, v) ∷ []) ps
          (λ x f.
            let (first, last) = Below-split x k v b f in
            Below-append x k v (b ++ (key, value) ∷ [])
              (Below-append x key value b first (bytes_less_trans key k x e last)) last)
          o.1,
    ),
  )
  | inr e ↦ elim (Bool-cases (bytes_less k key)) [
    | inl f ↦
        rw (e, f)
          (o.0, assign-InOrder key value (b ++ (k, v) ∷ []) ps (Below-append key k v b h f) o.1)
    | inr f ↦
        rw (e, f)
          (
            o.0,
            InOrder-weaken (b ++ (k, v) ∷ []) (b ++ (k, value) ∷ []) ps
                (λ x g.
                  let (first, last) = Below-split x k v b g in Below-append x k value b first last)
                o.1,
          )
  ]
]

bytes_less_total :
    (a b : Bytes) → bytes_less a b ≡ false → bytes_less b a ≡ false → bytes_eq a b ≡ true
unfolding bytes_less bytes_eq
bytes_less_total [] [] h k = refl
bytes_less_total [] (y ∷ b) h k = cc
bytes_less_total (x ∷ a) [] h k = cc
bytes_less_total (x ∷ a) (y ∷ b) h k = ground (arith, bytes_less_total a b)

bytes_less_ne : (a b : Bytes) → bytes_less a b ≡ true → bytes_eq b a ≡ false
unfolding bytes_less bytes_eq
bytes_less_ne [] [] h = cc
bytes_less_ne [] (y ∷ b) h = refl
bytes_less_ne (x ∷ a) [] h = cc
bytes_less_ne (x ∷ a) (y ∷ b) h = ground (arith, bytes_less_ne a b)

-- The value is found under the key.
pub assign-parameter :
    (key value : Bytes) (ps : List (Bytes × Bytes))
    → parameter key (assign key value ps) ≡ some value
unfolding assign parameter
assign-parameter key value [] = rw (bytes_eq_self key) refl
assign-parameter key value ((k, v) ∷ ps) = elim (Bool-cases (bytes_less key k)) [
  | inl e ↦ rw e (rw (bytes_eq_self key) refl)
  | inr e ↦ elim (Bool-cases (bytes_less k key)) [
    | inl f ↦ rw (e, f) (rw (bytes_less_ne k key f) (assign-parameter key value ps))
    | inr f ↦ rw (e, f) (rw (bytes_less_total key k e f) refl)
  ]
]

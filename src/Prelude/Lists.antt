-- ===== src/Prelude/Lists.antt =====
-- A predicate on all elements of a list, by recursion.
use mathlib.Core.List.{List, [], ◌∷◌, ◌++◌}

abbrev pub All : {A : Type 0} → (A → Type 0) → List A → Type 0
All P [] = Unit
All P (x ∷ xs) = P x × All P xs

pub All-map :
    {A : Type 0} {P Q : A → Type 0} → ((a : A) → P a → Q a) → (l : List A) → All P l → All Q l
All-map f [] h = tt
All-map f (a ∷ l) (h, hs) = (f a h, All-map f l hs)

pub All-append :
    {A : Type 0} (P : A → Type 0) (xs ys : List A) → All P xs → All P ys → All P (xs ++ ys)
All-append P [] ys p q = q
All-append P (x ∷ xs) ys (px, p) q = (px, All-append P xs ys p q)

pub All-drop :
    {A : Type 0} (P : A → Type 0) (front back : List A) (a : A)
    → All P (front ++ a ∷ back)
    → All P (front ++ back)
All-drop P [] back a (h, hs) = hs
All-drop P (b ∷ front) back a (h, hs) = (h, All-drop P front back a hs)

pub All-middle :
    {A : Type 0} (P : A → Type 0) (front back : List A) (a : A) → All P (front ++ a ∷ back) → P a
All-middle P [] back a (h, hs) = h
All-middle P (b ∷ front) back a (h, hs) = All-middle P front back a hs

pub All-zip :
    {A : Type 0} (P Q : A → Type 0) (l : List A) → All P l → All Q l → All (λ a. P a × Q a) l
All-zip P Q [] h k = tt
All-zip P Q (a ∷ l) (h, hs) (k, ks) = ((h, k), All-zip P Q l hs ks)

-- ===== src/YType/Distinct.antt =====
-- Lists of distinct addresses, cut in two.
use cert_yjs.Base.{ℕ, sym, List, [], ◌∷◌, ◌++◌, All, ◌<◌, arith}
use cert_yjs.Item.{Ptr}
use cert_yjs.YType.Links.{Fresh, Distinct, Apart}

pub All-append {ℓ} :
    {A : Type ℓ} (P : A → Type 0) (xs ys : List A) → All P xs → All P ys → All P (xs ++ ys)
All-append P [] ys a b = b
All-append P (x ∷ xs) ys (p, a) b = (p, All-append P xs ys a b)

pub All-left {ℓ} : {A : Type ℓ} (P : A → Type 0) (xs ys : List A) → All P (xs ++ ys) → All P xs
All-left P [] ys a = tt
All-left P (x ∷ xs) ys (p, a) = (p, All-left P xs ys a)

pub All-right {ℓ} : {A : Type ℓ} (P : A → Type 0) (xs ys : List A) → All P (xs ++ ys) → All P ys
All-right P [] ys a = a
All-right P (x ∷ xs) ys (p, a) = All-right P xs ys a

pub All-weaken {ℓ} :
    {A : Type ℓ} (P Q : A → Type 0) (xs : List A) → ((a : A) → P a → Q a) → All P xs → All Q xs
All-weaken P Q [] f a = tt
All-weaken P Q (x ∷ xs) f (p, a) = (f x p, All-weaken P Q xs f a)

pub All-zip {ℓ} :
    {A : Type ℓ} (P Q R : A → Type 0) (xs : List A)
    → ((a : A) → P a → Q a → R a)
    → All P xs
    → All Q xs
    → All R xs
All-zip P Q R [] f a b = tt
All-zip P Q R (x ∷ xs) f (p, a) (q, b) = (f x p q, All-zip P Q R xs f a b)

pub Distinct-append :
    (xs ys : List Ptr) → Distinct (xs ++ ys) → Distinct xs × Distinct ys × Apart xs ys
Distinct-append [] ys d = (tt, d, tt)
Distinct-append (x ∷ xs) ys (f, d) =
    let (a, b, c) = Distinct-append xs ys d in
    ((All-left _ xs ys f, a), b, (All-right _ xs ys f, c))

pub Distinct-join :
    (xs ys : List Ptr) → Distinct xs → Distinct ys → Apart xs ys → Distinct (xs ++ ys)
Distinct-join [] ys a b c = b
Distinct-join (x ∷ xs) ys (f, a) b (g, c) = (All-append _ xs ys f g, Distinct-join xs ys a b c)

-- The first address of the second list is not in the first one.
pub Apart-Fresh : (xs : List Ptr) (y : Ptr) (ys : List Ptr) → Apart xs (y ∷ ys) → Fresh y xs
Apart-Fresh [] y ys a = tt
Apart-Fresh (x ∷ xs) y ys ((n, f), a) = ((λ e. n (sym e)), Apart-Fresh xs y ys a)

-- A new address is none of those that are in use.
pub Fresh-new : (n : ℕ) (ps : List Ptr) → All (λ p. p < n) ps → Fresh n ps
Fresh-new n [] a = tt
Fresh-new n (p ∷ ps) (lt, a) = (omega arith, Fresh-new n ps a)

-- Adding a new address in the middle keeps the list distinct.
pub Distinct-insert :
    (xs ys : List Ptr) (n : Ptr)
    → Distinct (xs ++ ys)
    → Fresh n (xs ++ ys)
    → Distinct (xs ++ n ∷ ys)
Distinct-insert [] ys n d f = (f, d)
Distinct-insert (x ∷ xs) ys n (g, d) (ne, f) = (
  All-append _ xs (n ∷ ys) (All-left _ xs ys g) ((λ e. ne (sym e)), All-right _ xs ys g),
  Distinct-insert xs ys n d f,
)

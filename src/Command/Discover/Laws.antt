-- ===== src/Command/Discover/Laws.antt =====
-- discover.go: the names that are suggested.
use homewizard_exporter.Prelude.{
  ℕ, ◌+◌, ◌≤◌, ◌<◌, String, ◌≡◌, refl, sym, ap, ◌∙◌, ◌≢◌, ◌⊎◌, inl, inr, List, [], ◌∷◌, ◌++◌,
  append-nil, arith, str_eq, eq_iff, ◌==◌, if◌then◌else◌, Bool-cases, length, All, All-map,
}
use mathlib.Core.Path.{subst}
use mathlib.Core.List.{tail-eq_of_cons-eq}
use homewizard_exporter.Prelude.Int.{max_int64}
use homewizard_exporter.Text.{codes}
use homewizard_exporter.NameMap.{NameMap, lookup, insert}
use homewizard_exporter.NameMap.Laws.{lookup-insert}
use homewizard_exporter.Homewizard.Timestamps.{digits}
use homewizard_exporter.Homewizard.Timestamps.Laws.{value_from, value-digits}
use homewizard_exporter.Discovery
use homewizard_exporter.Command.Discover.{
  device_name, count_or, count_of, numbered, unique_name, Block, blocks,
}

-- The names of devices without a number.
abbrev IsKind : String → Type 0
IsKind k =
    (k ≡ "p1")
    ⊎ ((k ≡ "kwh") ⊎ ((k ≡ "socket") ⊎ ((k ≡ "water") ⊎ ((k ≡ "battery") ⊎ (k ≡ "device")))))

device_name-IsKind : (d : Discovery.Device) → IsKind (device_name d)
unfolding device_name
device_name-IsKind d = ground arith

abbrev head_or : List ℕ → ℕ
head_or [] = 0
head_or (c ∷ s) = c

-- The kind of a name with this first letter.
abbrev kind_of : ℕ → String
kind_of c =
    if c == b'p'
    then "p1"
    else if c == b'k'
    then "kwh"
    else if c == b's'
    then "socket"
    else if c == b'w'
    then "water"
    else if c == b'b'
    then "battery"
    else "device"

abbrev IsTold : List ℕ → String → Type 0
IsTold s k = kind_of (head_or (codes k ++ s)) ≡ k

kind_of-codes : (k : String) (s : List ℕ) → IsKind k → IsTold s k
kind_of-codes k s (inl e) = subst (IsTold s) (sym e) refl
kind_of-codes k s (inr (inl e)) = subst (IsTold s) (sym e) refl
kind_of-codes k s (inr (inr (inl e))) = subst (IsTold s) (sym e) refl
kind_of-codes k s (inr (inr (inr (inl e)))) = subst (IsTold s) (sym e) refl
kind_of-codes k s (inr (inr (inr (inr (inl e))))) = subst (IsTold s) (sym e) refl
kind_of-codes k s (inr (inr (inr (inr (inr e))))) = subst (IsTold s) (sym e) refl

append-cancel : (r s t : List ℕ) → r ++ s ≡ r ++ t → s ≡ t
append-cancel [] s t e = e
append-cancel (c ∷ r) s t e = append-cancel r s t (tail-eq_of_cons-eq e)

-- What follows the kind.
abbrev suffix : ℕ → List ℕ
suffix n = if n == 1 then [] else digits 20 n

numbered-suffix : (k : String) (n : ℕ) → numbered k n ≡ codes k ++ suffix n
unfolding numbered
numbered-suffix k n = elim (Bool-cases (n == 1)) [
  | inl e ↦ rw e (sym (append-nil (codes k)))
  | inr e ↦ rw e refl
]

value-suffix : (n : ℕ) → n ≤ max_int64 → value_from 0 (suffix n) ≡ (if n == 1 then 0 else n)
value-suffix n h = elim (Bool-cases (n == 1)) [
  | inl e ↦ rw e refl
  | inr e ↦ rw e (value-digits 20 n (omega (arith, h)))
]

suffix-injective :
    (n m : ℕ) → 1 ≤ n → 1 ≤ m → n ≤ max_int64 → m ≤ max_int64 → suffix n ≡ suffix m → n ≡ m
suffix-injective n m h k hn hm e =
    let same : (if n == 1 then 0 else n) ≡ (if m == 1 then 0 else m) =
      sym (value-suffix n hn) ∙ ap (value_from 0) e ∙ value-suffix m hm in
    ground (arith, same)

-- A name that is suggested tells its kind and its number.
numbered-injective :
    (k l : String) (n m : ℕ)
    → IsKind k
    → IsKind l
    → (1 ≤ n) × (n ≤ max_int64)
    → (1 ≤ m) × (m ≤ max_int64)
    → numbered k n ≡ numbered l m
    → (k ≡ l) × (n ≡ m)
numbered-injective k l n m hk hl (n1, n2) (m1, m2) e =
    let f = sym (numbered-suffix k n) ∙ e ∙ numbered-suffix l m in
    let same =
      sym (kind_of-codes k (suffix n) hk)
      ∙ ap (λ s. kind_of (head_or s)) f
      ∙ kind_of-codes l (suffix m) hl in
    let g = f ∙ ap (λ x. codes x ++ suffix m) (sym same) in
    (same, suffix-injective n m n1 m1 n2 m2 (append-cancel (codes k) (suffix n) (suffix m) g))

count_of-insert :
    (n m : String) (c : ℕ) (used : NameMap ℕ)
    → count_of m (insert n c used) ≡ (if str_eq n m then c else count_of m used)
unfolding count_of
count_of-insert n m c used =
    ap count_or (lookup-insert n m c used)
    ∙ elim (Bool-cases (str_eq n m)) [ inl e ↦ rw e refl | inr e ↦ rw e refl ]

-- A name of its own kind whose number is above the count.
abbrev IsAbove : NameMap ℕ → List ℕ → Type 0
IsAbove used x =
    (k : String) × (n : ℕ) × IsKind k × (x ≡ numbered k n) × (count_of k used < n) × (n ≤ max_int64)

-- No two of them are the same.
abbrev pub IsDistinct : List (List ℕ) → Type 0
IsDistinct [] = Unit
IsDistinct (x ∷ xs) = All (λ y. x ≢ y) xs × IsDistinct xs

abbrev pub names_of : List Block → List (List ℕ)
names_of [] = []
names_of (b ∷ bs) = b.name ∷ names_of bs

insert-IsAbove :
    (k : String) (used : NameMap ℕ) (x : List ℕ)
    → IsAbove (insert k (count_of k used + 1) used) x
    → IsAbove used x
insert-IsAbove k used x (l, n, hl, e, above, h) = (
  l,
  n,
  hl,
  e,
  ground (arith, above, count_of-insert k l (count_of k used + 1) used, eq_iff k l),
  h,
)

-- A name above the new count is not the one that was given for it.
fresh_name :
    (k : String) (used : NameMap ℕ) (x : List ℕ)
    → IsKind k
    → count_of k used + 1 ≤ max_int64
    → IsAbove (insert k (count_of k used + 1) used) x
    → numbered k (count_of k used + 1) ≢ x
fresh_name k used x hk h (l, n, hl, e, above, m) same =
    let c = count_of k used + 1 in
    let (kinds, numbers) =
      numbered-injective k l c n hk hl (omega arith, h) (omega (arith, above), m) (same ∙ e) in
    let counted = count_of-insert k l c used in ground (arith, (eq_iff k l).1 kinds)

abbrev IsRoom : ℕ → NameMap ℕ → Type 0
IsRoom n used = (k : String) → count_of k used + n ≤ max_int64

names-IsDistinct :
    (ds : List Discovery.Device) (used : NameMap ℕ)
    → IsRoom (length ds) used
    → All (IsAbove used) (names_of (blocks used ds)) × IsDistinct (names_of (blocks used ds))
unfolding blocks unique_name
names-IsDistinct [] used room = (tt, tt)
names-IsDistinct (d ∷ ds) used room =
    let k = device_name d in
    let c = count_of k used + 1 in
    let hk = device_name-IsKind d in
    let here : c ≤ max_int64 = omega (arith, room k) in
    let later : IsRoom (length ds) (insert k c used) =
      λ l. ground (arith, room l, room k, count_of-insert k l c used, eq_iff k l) in
    let (above, distinct) = names-IsDistinct ds (insert k c used) later in
    let rest = names_of (blocks (insert k c used) ds) in
    (
      (
        (k, c, hk, refl, omega arith, here),
        All-map _ (IsAbove used) rest (insert-IsAbove k used) above,
      ),
      (All-map _ (λ y. numbered k c ≢ y) rest (λ x. fresh_name k used x hk here) above, distinct),
    )

-- No two devices of the printed block have the same name, however many of a kind were found, up to the
-- largest int64.
pub blocks-IsDistinct :
    (ds : List Discovery.Device) → length ds ≤ max_int64 → IsDistinct (names_of (blocks [] ds))
unfolding count_of lookup
blocks-IsDistinct ds h = (names-IsDistinct ds [] (λ k. omega (arith, h))).1

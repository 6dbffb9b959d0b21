-- ===== src/Base/Order/Kept.antt =====
-- Sorting texts loses none of them.
use mathlib.Core.Logic.{inl, inr}
use mathlib.Core.List.{List, [], ◌∷◌, map}
use mha_go.Base.Tests.{Bool-cases}
use mha_go.Base.Lists.{In, head, tail}
use mha_go.Base.Strings.{Text, text_lt}
use mha_go.Base.Order.{insert_text, sort_texts}

insert_text-head : (s : Text) (l : List Text) → In s (insert_text s l)
unfolding insert_text
insert_text-head s [] = head
insert_text-head s (t ∷ l) = elim (Bool-cases (text_lt t s)) [
  | inl e ↦ rw e (tail (insert_text-head s l))
  | inr e ↦ rw e head
]

insert_text-tail : (s : Text) {a : Text} (l : List Text) → In a l → In a (insert_text s l)
unfolding insert_text
insert_text-tail s [] i = elim i [ ]
insert_text-tail s (t ∷ l) head = elim (Bool-cases (text_lt t s)) [
  | inl e ↦ rw e head
  | inr e ↦ rw e (tail head)
]
insert_text-tail s (t ∷ l) (tail i) = elim (Bool-cases (text_lt t s)) [
  | inl e ↦ rw e (tail (insert_text-tail s l i))
  | inr e ↦ rw e (tail (tail i))
]

pub sort_texts-In : {a : Text} (l : List Text) → In a l → In a (sort_texts l)
unfolding sort_texts
sort_texts-In [] i = elim i [ ]
sort_texts-In (s ∷ l) head = insert_text-head s (sort_texts l)
sort_texts-In (s ∷ l) (tail i) = insert_text-tail s (sort_texts l) (sort_texts-In l i)

pub map-In {ℓ κ} :
    {A : Type ℓ} {B : Type κ} (f : A → B) {a : A} (l : List A) → In a l → In (f a) (map f l)
map-In f [] i = elim i [ ]
map-In f (x ∷ l) head = head
map-In f (x ∷ l) (tail i) = tail (map-In f l i)

-- ===== src/Storage/Database/Memory.antt =====
-- A table in memory for the interface of Storage/Database: a list of rows, in which the first row of an
-- id counts, read through a filter and sorted.
use agent_sets.Prelude.{
  All, All-map, Bool, Bool-cases, List, Occurs, Option, [], ap, arith, false, filter, if◌then◌else◌,
  inl, inr, leb, leb→le, none, none-ne-some, not, refl, some, some-inj, sym, take, true, ℕ, ◌&&◌,
  ◌↔◌, ◌∙◌, ◌∷◌, ◌≡◌, ◌≤◌,
}
use agent_sets.Prelude.Int.{negsuc, pos, ℤ}
use agent_sets.Prelude.Sorting.{sort_by, insert_by, Occurs-sort_by}
use agent_sets.Text.Search.{equal_iff}
use agent_sets.Text.{Bytes, equal}
use agent_sets.Storage.{ReviewRow, columns_of}
use agent_sets.Storage.Database.{Database, Descending, SamePr, IsLawful}

-- Every row under whose id no other row comes first.
abbrev first_row : Bytes → List ReviewRow → Option ReviewRow
first_row j [] = none
first_row j (r ∷ rows) = if equal j r.row_id then some r else first_row j rows

abbrev other_id : ReviewRow → ReviewRow → Bool
other_id r x = not (equal x.row_id r.row_id)

abbrev visible : List ReviewRow → List ReviewRow
visible [] = []
visible (r ∷ rows) = r ∷ filter (other_id r) (visible rows)

abbrev of_pr : Bytes → Bytes → Bytes → ReviewRow → Bool
of_pr project slug pr x =
    equal x.row_project project && (equal x.row_slug slug && equal x.row_pr pr)

abbrev pub not_older : ReviewRow → ReviewRow → Bool
not_older x y = leb y.row_created x.row_created

abbrev pub by_time : List ReviewRow → List ReviewRow
by_time = sort_by not_older

abbrev insert_into : Option ReviewRow → ReviewRow → List ReviewRow → Option (List ReviewRow)
insert_into none r rows = some (r ∷ rows)
insert_into (some q) r rows = none

-- LIMIT, where a negative number is none
abbrev pub limited : ℤ → List ReviewRow → List ReviewRow
limited (pos n) rows = take n rows
limited (negsuc n) rows = rows

abbrev pub memory : Database
memory = record {
  State = List ReviewRow;
  insert_row = λ r rows. insert_into (first_row r.row_id rows) r rows;
  select_id = first_row;
  select_pr = λ project slug pr rows. record {
    items = by_time (filter (of_pr project slug pr) (visible rows));
    failed = false;
  };
  select_recent = λ n rows. record { items = limited n (by_time (visible rows)); failed = false };
  scan_row = λ r. some (columns_of r);
}

module _ {A : Type 0} where
  Occurs-filter :
      (test : A → Bool) (x : A) (xs : List A)
      → Occurs x (filter test xs) ↔ (Occurs x xs × (test x ≡ true))
  Occurs-filter test x [] = (λ h. absurd h, λ (h, k). absurd h)
  Occurs-filter test x (y ∷ xs) = elim (Bool-cases (test y)) [
    | inl e ↦ rw e (
      λ h. elim h [
        | inl same ↦ (inl same, ap test same ∙ e)
        | inr later ↦ let (o, k) = (Occurs-filter test x xs).0 later in (inr o, k)
      ],
      λ (h, k). elim h [
        | inl same ↦ inl same
        | inr later ↦ inr ((Occurs-filter test x xs).1 (later, k))
      ],
    )
    | inr e ↦ rw e (
      λ h. let (o, k) = (Occurs-filter test x xs).0 h in (inr o, k),
      λ (h, k). elim h [
        | inl same ↦ absurd (ground (arith, sym e ∙ ap test (sym same) ∙ k))
        | inr later ↦ (Occurs-filter test x xs).1 (later, k)
      ],
    )
  ]

NotAfter : ℕ → List ReviewRow → Type 0
NotAfter n = All (λ y. y.row_created ≤ n)

NotAfter-insert_by_time :
    (n : ℕ) (x : ReviewRow) (ys : List ReviewRow)
    → x.row_created ≤ n
    → NotAfter n ys
    → NotAfter n (insert_by not_older x ys)
unfolding NotAfter insert_by
NotAfter-insert_by_time n x [] h k = (h, tt)
NotAfter-insert_by_time n x (y ∷ ys) h (k, ks) =
    elim (Bool-cases (leb y.row_created x.row_created)) [
      | inl e ↦ rw e (h, (k, ks))
      | inr e ↦ rw e (k, NotAfter-insert_by_time n x ys h ks)
    ]

insert_by_time-Descending :
    (x : ReviewRow) (ys : List ReviewRow)
    → Descending (λ (r : ReviewRow). r.row_created) ys
    → Descending (λ (r : ReviewRow). r.row_created) (insert_by not_older x ys)
unfolding insert_by NotAfter
insert_by_time-Descending x [] h = (tt, tt)
insert_by_time-Descending x (y ∷ ys) (k, ks) = elim (Bool-cases (leb y.row_created x.row_created)) [
  | inl e ↦
      let le = leb→le y.row_created x.row_created e in
      rw e ((le, All-map ys (λ z h. omega (arith, h, le)) k), (k, ks))
  | inr e ↦ rw e (
    NotAfter-insert_by_time y.row_created x ys (ground (arith, e)) k,
    insert_by_time-Descending x ys ks,
  )
]

by_time-Descending :
    (xs : List ReviewRow) → Descending (λ (r : ReviewRow). r.row_created) (by_time xs)
unfolding sort_by
by_time-Descending [] = tt
by_time-Descending (x ∷ xs) = insert_by_time-Descending x (by_time xs) (by_time-Descending xs)

Occurs-visible :
    (x : ReviewRow) (rows : List ReviewRow)
    → Occurs x (visible rows) ↔ (first_row x.row_id rows ≡ some x)
Occurs-visible x [] = (λ h. absurd h, λ h. absurd (none-ne-some x h))
Occurs-visible x (r ∷ rows) = (
  λ h. elim h [
    | inl same ↦
        let e : equal x.row_id r.row_id ≡ true =
          (equal_iff x.row_id r.row_id).1 (ap (λ (z : ReviewRow). z.row_id) same) in
        rw e (ap some (sym same))
    | inr later ↦
        let (o, k) = (Occurs-filter (other_id r) x (visible rows)).0 later in
        let e : equal x.row_id r.row_id ≡ false = ground (arith, k) in
        rw e ((Occurs-visible x rows).0 o)
  ],
  λ h. elim (Bool-cases (equal x.row_id r.row_id)) [
    | inl e ↦ let k : some r ≡ some x = rw e at h in inl (sym (some-inj r x k))
    | inr e ↦
        let k : first_row x.row_id rows ≡ some x = rw e at h in
        inr
          ((Occurs-filter (other_id r) x (visible rows)).1 ((Occurs-visible x rows).1 k, ap not e))
  ],
)

of_pr_iff :
    (project slug pr : Bytes) (x : ReviewRow)
    → (of_pr project slug pr x ≡ true) ↔ SamePr project slug pr x
of_pr_iff project slug pr x = (
  λ h.
      let (a, b, c) = all_three _ _ _ h in
      (
        (equal_iff x.row_project project).0 a,
        (equal_iff x.row_slug slug).0 b,
        (equal_iff x.row_pr pr).0 c,
      ),
  λ (a, b, c).
      rw
        (
          (equal_iff x.row_project project).1 a,
          (equal_iff x.row_slug slug).1 b,
          (equal_iff x.row_pr pr).1 c,
        )
        refl,
)
  where
    all_three : (a b c : Bool) → (a && (b && c)) ≡ true → (a ≡ true) × (b ≡ true) × (c ≡ true)
    all_three a b c h = ground (arith, h)

insert_into-first_row :
    (o : Option ReviewRow) (r : ReviewRow) (s t : List ReviewRow) (j : Bytes)
    → insert_into o r s ≡ some t
    → first_row j t ≡ (if equal j r.row_id then some r else first_row j s)
insert_into-first_row none r s t j h = ap (first_row j) (sym (some-inj (r ∷ s) t h))
insert_into-first_row (some q) r s t j h = absurd (none-ne-some t h)

-- The table in memory keeps the laws.
pub memory-IsLawful : IsLawful memory
memory-IsLawful = record {
  insert_row-select_id = λ r s t h j. insert_into-first_row (first_row r.row_id s) r s t j h;
  insert_row_taken = λ r q s h. ap (λ o. insert_into o r s) h;
  select_pr_iff = λ project slug pr s _ r. (
    λ h.
        let (o, k) =
          (Occurs-filter (of_pr project slug pr) r (visible s)).0
            ((Occurs-sort_by not_older r (filter (of_pr project slug pr) (visible s))).0 h) in
        ((Occurs-visible r s).0 o, (of_pr_iff project slug pr r).0 k),
    λ (h, k). (Occurs-sort_by not_older r (filter (of_pr project slug pr) (visible s))).1 (
        (Occurs-filter (of_pr project slug pr) r (visible s)).1
          ((Occurs-visible r s).1 h, (of_pr_iff project slug pr r).1 k)),
  );
  select_pr-Descending =
      λ project slug pr s. by_time-Descending (filter (of_pr project slug pr) (visible s));
  scan_row_columns = λ r. refl;
}

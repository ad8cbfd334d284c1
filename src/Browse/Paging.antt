-- ===== src/Browse/Paging.antt =====
-- The listing of crates/garret-server/src/browse.rs read page by page.
use mathlib.Core.List.{append_assoc}
use garret.Common.{
  length-map, ℕ, zero, suc, ◌+◌, ◌-◌, ◌^◌, ◌≤◌, ◌<◌, ◌≡◌, refl, sym, ap, subst, ◌∙◌, ◌⊎◌, inl, inr,
  Bool, true, Option, none, some, List, [], ◌∷◌, ◌++◌, map, arith, Text, filter, filter_same,
  All-filter, take, length, All, All-imp, length-append,
}
use garret.Db.Schema.{Row, Database, sort_by}
use garret.Db.Rows.{Unique}
use garret.Db.Candidates.{sort_by-All}
use garret.Browse.{
  Summary, Cursor, Page, summary_from_row, after_of, precedes, key, newest, page_of, clamped,
  matches, listed, list,
}
use garret.Browse.Order.{Sorted, filter-Unique, sort_by-Sorted, sort_by-filter, filter_behind}
use garret.Browse.Cuts.{
  pages, cursor_of, page_full, page_short, take_short, cut, take_two, map_cut, filter_both,
}

page_after :
    (n : ℕ) (rows front back : List Row) (x y : Row)
    → rows ≡ front ++ x ∷ y ∷ back
    → suc (length front) ≡ n
    → page_of n (take (n + 1) (map summary_from_row rows)) ≡ record {
      objects = map summary_from_row front ++ summary_from_row x ∷ [];
      next_cursor = some (cursor_of x);
    }
page_after n rows front back x y e l =
    let same : suc (length (map summary_from_row front)) ≡ n =
      ap suc (length-map summary_from_row front) ∙ l in
    let taken : take (n + 1) (map summary_from_row rows)
        ≡ map summary_from_row front ++ summary_from_row x ∷ summary_from_row y ∷ [] =
      ap (λ r. take (n + 1) (map summary_from_row r)) e
      ∙ take_two (n + 1) front x y back (omega arith) in
    ap (page_of n) taken
    ∙ ap
        (λ m.
          page_of m (map summary_from_row front ++ summary_from_row x ∷ summary_from_row y ∷ []))
        (sym same)
    ∙ page_full (map summary_from_row front) (summary_from_row x) (summary_from_row y)

page_last :
    (n : ℕ) (rows : List Row)
    → length rows ≤ n
    → page_of n (take (n + 1) (map summary_from_row rows))
      ≡ record { objects = map summary_from_row rows; next_cursor = none }
page_last n rows h =
    ap (page_of n) (
      take_short (n + 1) (map summary_from_row rows)
        (omega (arith, length-map summary_from_row rows)))
    ∙ page_short n (map summary_from_row rows) (omega (arith, length-map summary_from_row rows))

le_or_lt : (m n : ℕ) → (m ≤ n) ⊎ (n < m)
le_or_lt m n = ground arith

pages_done :
    (ask : Option Cursor → Page) (fuel : ℕ) (c : Option Cursor) {objects : List Summary}
    → ask c ≡ record { objects = objects; next_cursor = none }
    → pages ask (suc fuel) c ≡ some objects
unfolding pages
pages_done ask fuel c e = rw (e, pages) (ap (λ (p : Page). some p.objects) e)

pages_next :
    (ask : Option Cursor → Page) (fuel : ℕ) (c : Option Cursor) {d : Cursor}
    {objects rest : List Summary}
    → ask c ≡ record { objects = objects; next_cursor = some d }
    → pages ask fuel (some d) ≡ some rest
    → pages ask (suc fuel) c ≡ some (objects ++ rest)
unfolding pages
pages_next ask fuel c {rest = rest} e f =
    rw (e, pages, f) (ap (λ (p : Page). some (p.objects ++ rest)) e)

early : (r : Row) → r.created_at < 2 ^ 63 - 1 → precedes (after_of none) (key r) ≡ true
unfolding precedes
early r b = ground arith

module _ (like : Text → Text → Bool) (db : Database) (query : Option Text) (limit : ℕ) where
  -- The whole listing.
  abbrev pub whole : List Row
  whole = sort_by newest (filter (matches like query) db.objects)

  whole_after :
      (cursor : Option Cursor)
      → Unique db.objects
      → listed like db query cursor ≡ filter (λ r. precedes (after_of cursor) (key r)) whole
  unfolding listed
  whole_after cursor u =
      ap (sort_by newest)
        (filter_both (matches like query) (λ r. precedes (after_of cursor) (key r)) db.objects)
      ∙ sort_by-filter (λ r. precedes (after_of cursor) (key r))
          (filter (matches like query) db.objects) (filter-Unique (matches like query) db.objects u)

  list-page :
      (cursor : Option Cursor) {rows : List Row}
      → listed like db query cursor ≡ rows
      → list like db query limit cursor
        ≡ page_of (clamped limit) (take (clamped limit + 1) (map summary_from_row rows))
  unfolding list
  list-page cursor e =
      ap (λ rows. page_of (clamped limit) (take (clamped limit + 1) (map summary_from_row rows))) e

  pages_from :
      (fuel : ℕ) (front rows : List Row) (cursor : Option Cursor)
      → Unique db.objects
      → whole ≡ front ++ rows
      → listed like db query cursor ≡ rows
      → length rows < fuel
      → pages (list like db query limit) fuel cursor ≡ some (map summary_from_row rows)
  pages_from zero front rows cursor u split here h = absurd (omega arith)
  pages_from (suc fuel) front rows cursor u split here h =
      let n = clamped limit in
      elim (le_or_lt (length rows) n) [
        | inl short ↦
            pages_done (list like db query limit) fuel cursor
              (list-page cursor here ∙ page_last n rows short)
        | inr long ↦
            let (a, x, y, b, e, l) = cut (n - 1) rows (omega arith) in
            let page = page_after n rows a b x y e (omega arith) in
            let behind : whole ≡ (front ++ a) ++ x ∷ y ∷ b =
              split ∙ ap (◌++◌ front) e ∙ sym (append_assoc front a (x ∷ y ∷ b)) in
            let sorted = subst Sorted behind (
              sort_by-Sorted (filter (matches like query) db.objects)
                (filter-Unique (matches like query) db.objects u)) in
            let next : listed like db query (some (cursor_of x)) ≡ y ∷ b =
              whole_after (some (cursor_of x)) u
              ∙ ap (filter (λ r. precedes (key x) (key r))) behind
              ∙ filter_behind (front ++ a) x (y ∷ b) sorted in
            let rest =
              pages_from fuel ((front ++ a) ++ x ∷ []) (y ∷ b) (some (cursor_of x)) u
                (behind ∙ sym (append_assoc (front ++ a) (x ∷ []) (y ∷ b))) next
                (omega (arith, ap length e, length-append a (x ∷ y ∷ b))) in
            pages_next (list like db query limit) fuel cursor (list-page cursor here ∙ page) rest
            ∙ (ap some (map_cut a x y b ∙ ap (map summary_from_row) (sym e)))
      ]

  -- Following the cursors from the first page yields the whole listing, every matching row once,
  -- newest first, whatever the limit, and takes no more pages than there are rows, and one; rows
  -- have distinct hashes, and times before the last one that an `i64` holds.
  pub list-pages :
      Unique db.objects
      → All (λ (r : Row). r.created_at < 2 ^ 63 - 1) db.objects
      → pages (list like db query limit) (suc (length whole)) none
        ≡ some (map summary_from_row whole)
  list-pages u bounded =
      pages_from (suc (length whole)) [] whole none u refl
        (whole_after none u
          ∙ filter_same (λ r. precedes (after_of none) (key r)) whole
              (sort_by-All newest (λ r. precedes (after_of none) (key r) ≡ true) _
                (All-filter _ (matches like query) db.objects
                  (All-imp (λ r b. early r b) db.objects bounded))))
        (omega arith)

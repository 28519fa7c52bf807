-- ===== src/Admin/Paging/Ranges.antt =====
-- The range that the line tells is the one that the query asked for.
use integr8s_code.Base.{ℕ, ◌+◌, ◌-◌, ◌*◌, ◌≤◌, ◌<◌, ◌≡◌, ap, ap₂, ◌∙◌, true, min, ltb, some, arith}
use integr8s_code.Admin.Paging.{Pagination, range, shown}

-- The rows from `offset` on that the server sends of `row_count` when asked for `limit`.
abbrev pub sent : (offset limit row_count : ℕ) → ℕ
sent offset limit row_count = min limit (row_count - offset)

next_offset : (i s : ℕ) → (i + 1) * s ≡ i * s + s
next_offset i s = ground arith

shown_rows :
    (p : Pagination) (n a b : ℕ)
    → ltb 0 n ≡ true
    → min (p.page_index * p.page_size + 1) n ≡ a
    → min ((p.page_index + 1) * p.page_size) n ≡ b
    → shown p n ≡ some (record { first = a; last = b })
unfolding shown range
shown_rows p n a b h e f = rw (shown, h) (ap₂ (λ x y. some (record { first = x; last = y })) e f)

next_first : (i s n : ℕ) → (i + 1) * s < n → min ((i + 1) * s + 1) n ≡ min ((i + 1) * s) n + 1
next_first i s n h = ground arith

-- The rows that a range of rows tells, one behind the other, and what the server sends.
tells :
    (o s n : ℕ)
    → o < n
    → 0 < s
    → (min (o + 1) n ≡ o + 1)
      × (min (o + s) n ≡ o + sent o s n)
      × (o + 1 ≤ o + sent o s n)
      × (o + sent o s n ≤ n)
tells o s n h k = (ground arith, ground arith, ground arith, ground arith)

-- For a page that has a row, the line tells exactly the rows that the server sends for it: from the one
-- behind the query's offset, as many as are sent, none behind the last row there is; and while there are
-- more rows, the next page's line begins behind this one's.
pub range-sent :
    (p : Pagination) (row_count : ℕ)
    → p.page_index * p.page_size < row_count
    → 0 < p.page_size
    → let offset = p.page_index * p.page_size in
      let rows = sent offset p.page_size row_count in
      let next = record p { page_index = p.page_index + 1 } in
      (shown p row_count ≡ some (record { first = offset + 1; last = offset + rows }))
      × (0 < rows)
      × (offset + rows ≤ row_count)
      × (next.page_index * p.page_size < row_count
          → (range next row_count).first ≡ (range p row_count).last + 1)
unfolding shown range
range-sent p n h k =
    let o = p.page_index * p.page_size in
    let t = tells o p.page_size n h k in
    (
      shown_rows p n (o + 1) (o + sent o p.page_size n) (ground arith) t.0
          (ap (λ e. min e n) (next_offset p.page_index p.page_size) ∙ t.1),
      ground arith,
      t.3,
      λ m. next_first p.page_index p.page_size n m,
    )

-- ===== src/LedgerQuery/Pages.antt =====
-- How much Query of internal/router/workspaceledger/ledger.go returns.
use monofs.Prelude.{
  ℕ, ◌+◌, ◌*◌, ◌≤◌, ◌<◌, List, length, length-take, leb, ltb, ltb→lt, leb→le, if◌then◌else◌,
  Bool-cases, inl, inr, arith,
}
use monofs.LedgerQuery.{
  QueryLedgerRequest, QueryLedgerResponse, Tables, collect, effective_page_size, limit_slice, size,
  limited, query,
}

abbrev pub returned : QueryLedgerResponse → ℕ
returned r = length r.commits + length r.push_outcomes + length r.refresh_events

-- A limited slice is as long as the limit, or as the slice where that is shorter.
length-limit_slice {ℓ} :
    {A : Type ℓ} (s : List A) (limit : ℕ)
    → (length (limit_slice s limit) ≤ limit)
      × ((length (limit_slice s limit) ≤ length s)
          × ((if leb (length s) limit then length s else limit) ≤ length (limit_slice s limit)))
length-limit_slice s limit = elim (Bool-cases (leb (length s) limit)) [
  | inl t ↦ let small = leb→le (length s) limit t in rw t (small, (omega arith, omega arith))
  | inr f ↦
      let big : limit < length s = ground arith in
      let same = length-take limit s (omega arith) in
      rw (f, same) (omega arith, (omega arith, omega arith))
]

least_of_three :
    (page a b c x y z : ℕ)
    → page < a + b + c
    → (if leb a page then a else page) ≤ x
    → (if leb b page then b else page) ≤ y
    → (if leb c page then c else page) ≤ z
    → page ≤ x + y + z
least_of_three page a b c x y z h ha hb hc = ground arith

-- The three tables behind the limit.
size-limited :
    (page : ℕ) (t : Tables)
    → (size (limited page t) ≤ 3 * page)
      × ((size (limited page t) ≤ size t)
          × ((if ltb page (size t) then page else size t) ≤ size (limited page t)))
unfolding limited
size-limited page t =
    let (a, (a', a_least)) = length-limit_slice t.commits page in
    let (b, (b', b_least)) = length-limit_slice t.outcomes page in
    let (c, (c', c_least)) = length-limit_slice t.refreshes page in
    elim (Bool-cases (ltb page (size t))) [
      | inl over ↦
          let more = ltb→lt page (size t) over in
          let full = least_of_three page _ _ _ _ _ _ more a_least b_least c_least in
          simp over (omega arith, (omega arith, omega arith))
      | inr within ↦
          let few : size t ≤ page = ground arith in
          simp within (omega arith, (omega arith, omega arith))
    ]

-- How many records a query returns. There are at most three times the page size, as the limit holds
-- for each table by itself; at most as many as match; and at least as many as match, or a full page
-- where more than that match.
pub query-page :
    (req : QueryLedgerRequest) (l : Tables)
    → (returned (query req l) ≤ 3 * effective_page_size req.page_size)
      × ((returned (query req l) ≤ size (collect req l))
          × ((if ltb (effective_page_size req.page_size) (size (collect req l))
                then effective_page_size req.page_size
                else size (collect req l))
              ≤ returned (query req l)))
unfolding query limited
query-page req l = size-limited (effective_page_size req.page_size) (collect req l)

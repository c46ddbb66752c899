-- ===== src/Ratelimit/Limits.antt =====
-- gateway/ratelimit.py: how many requests pass in a window, and the size of the table.
use sqtseries.Ratelimit.{count_request}
use sqtseries.Prelude.{
  ℕ, ◌+◌, ◌-◌, ◌≤◌, min, ◌≡◌, ap, ◌∙◌, inl, inr, false, ◌&&◌, not, some, List, [], ◌∷◌, arith, ltb,
  ◌==◌, if◌then◌else◌, Bool-cases, Eq, nat_eq, string_eq, length, keep, length-drop, All,
}
use sqtseries.Dict.{lookup, assign, lookup-assign}
use sqtseries.Ratelimit.{Mark, Hits, Limiter, window_of, sweep, mark_of, admit}

pub record Request (K : Type 0) : Type 0 where
  pub client : K
  pub time : ℕ

module _ {K : Type 0} ⦃e : Eq K⦄ where
  length-assign : (k : K) (m : Mark) (d : Hits K) → length (assign k m d) ≤ length d + 1
  unfolding assign
  length-assign k m [] = omega arith
  length-assign k m ((j, n) ∷ d) = ground (arith, length-assign k m d)

  assign_twice : (k : K) (m n : Mark) (d : Hits K) → assign k m (assign k n d) ≡ assign k m d
  unfolding assign
  assign_twice k m n [] = ground (arith, e.beq_iff k k)
  assign_twice k m n ((j, p) ∷ d) = ground (arith, assign_twice k m n d)

  -- the requests that the client has left in the window
  abbrev pub left : K → ℕ → Limiter K → ℕ
  left k window limiter =
      if (mark_of (lookup k limiter.hits)).window == window
      then limiter.limit - (mark_of (lookup k limiter.hits)).count
      else limiter.limit

  sweep_idle :
      (max_keys window : ℕ) (hits : Hits K)
      → length hits ≤ max_keys
      → sweep max_keys window hits ≡ hits
  unfolding sweep
  sweep_idle max_keys window hits h = ground arith

  sweep-length :
      (max_keys window : ℕ) (hits : Hits K) → length (sweep max_keys window hits) ≤ max_keys
  unfolding sweep
  sweep-length max_keys window hits = ground (
    arith,
    length-drop (length (keep (λ p. p.1.window == window) hits) - max_keys)
        (keep (λ p. p.1.window == window) hits),
  )

  -- After a request the table has at most one entry more than the cap; the limit and the cap stay.
  pub admit-length :
      (k : K) (time : ℕ) (limiter : Limiter K)
      → (length (admit k time limiter).0.hits ≤ limiter.max_keys + 1)
        × ((admit k time limiter).0.limit ≡ limiter.limit)
        × ((admit k time limiter).0.max_keys ≡ limiter.max_keys)
  unfolding admit count_request
  admit-length k time limiter =
      let window = window_of time in
      let swept = sweep limiter.max_keys window limiter.hits in
      let mark = mark_of (lookup k swept) in
      ground (
        arith,
        sweep-length limiter.max_keys window limiter.hits,
        length-assign k mark swept,
        length-assign k (record { count = 1; window = window }) swept,
        length-assign k (record { count = mark.count + 1; window = window }) swept,
        assign_twice k (record { count = 1; window = window }) mark swept,
        assign_twice k (record { count = mark.count + 1; window = window }) mark swept,
      )

  lookup-count_request :
      (k j : K) (window : ℕ) (mark : Mark) (swept : Hits K) (limiter : Limiter K)
      → lookup j (count_request k window mark swept limiter).0.hits ≡ (
          if e.beq k j
          then some (
              if not (mark.window == window)
              then record { count = 1; window = window }
              else if ltb limiter.limit (mark.count + 1)
              then mark
              else record { count = mark.count + 1; window = window })
          else lookup j swept)
  unfolding count_request
  lookup-count_request k j window mark swept limiter = elim (Bool-cases (mark.window == window)) [
    | inr new ↦ rw new (
        ap (lookup j) (assign_twice k (record { count = 1; window = window }) mark swept)
        ∙ lookup-assign k j (record { count = 1; window = window }) swept)
    | inl old ↦ rw old (elim (Bool-cases (ltb limiter.limit (mark.count + 1))) [
      | inl over ↦ rw over (lookup-assign k j mark swept)
      | inr under ↦ rw under (
          ap (lookup j)
            (assign_twice k (record { count = mark.count + 1; window = window }) mark swept)
          ∙ lookup-assign k j (record { count = mark.count + 1; window = window }) swept)
    ])
  ]

  -- While the table is not over its cap, a request is admitted exactly when its client has one
  -- left, and takes one.
  admit-left :
      (k : K) (time : ℕ) (limiter : Limiter K)
      → 1 ≤ limiter.limit
      → length limiter.hits ≤ limiter.max_keys
      → ((admit k time limiter).1 ≡ ltb 0 (left k (window_of time) limiter))
        × (left k (window_of time) (admit k time limiter).0 ≡ left k (window_of time) limiter - 1)
  unfolding admit
  admit-left k time limiter some_limit room =
      let window : ℕ = window_of time in
      let mark : Mark = mark_of (lookup k limiter.hits) in
      rw (sweep_idle limiter.max_keys window limiter.hits room, admit)
        (rw (lookup-count_request k k window mark limiter.hits limiter)
          (ground (arith, e.beq_iff k k)))

  admit-other :
      (k j : K) (time : ℕ) (limiter : Limiter K)
      → length limiter.hits ≤ limiter.max_keys
      → e.beq j k ≡ false
      → left k (window_of time) (admit j time limiter).0 ≡ left k (window_of time) limiter
  unfolding admit
  admit-other k j time limiter room other =
      let window : ℕ = window_of time in
      let mark : Mark = mark_of (lookup j limiter.hits) in
      let (short, same_limit, same_cap) = admit-length j time limiter in
      rw (sweep_idle limiter.max_keys window limiter.hits room, admit)
        (rw (lookup-count_request j k window mark limiter.hits limiter)
          (rw other (unfold count_request in ground arith)))

  admit-grows :
      (k : K) (time : ℕ) (limiter : Limiter K)
      → length limiter.hits ≤ limiter.max_keys
      → length (admit k time limiter).0.hits ≤ length limiter.hits + 1
  unfolding admit count_request
  admit-grows k time limiter room =
      let window : ℕ = window_of time in
      let mark : Mark = mark_of (lookup k limiter.hits) in
      rw (sweep_idle limiter.max_keys window limiter.hits room, admit)
        (ground (
          arith,
          length-assign k mark limiter.hits,
          length-assign k (record { count = 1; window = window }) limiter.hits,
          length-assign k (record { count = mark.count + 1; window = window }) limiter.hits,
          assign_twice k (record { count = 1; window = window }) mark limiter.hits,
          assign_twice k (record { count = mark.count + 1; window = window }) mark limiter.hits,
        ))

  -- the requests of a client among some, and those that are admitted
  abbrev pub asked : K → List (Request K) → ℕ
  asked k [] = 0
  asked k (r ∷ requests) = (if e.beq r.client k then 1 else 0) + asked k requests

  abbrev pub passed : K → List (Request K) → Limiter K → ℕ
  passed k [] limiter = 0
  passed k (r ∷ requests) limiter =
      (if e.beq r.client k && (admit r.client r.time limiter).1 then 1 else 0)
      + passed k requests (admit r.client r.time limiter).0

  -- In one window, with a limit of at least 1 and room in the table for the clients of all requests,
  -- a client is admitted as often as it asks, up to what it has left, whoever else asks in between.
  pub passed-asked :
      (k : K) (window : ℕ) (requests : List (Request K)) (limiter : Limiter K)
      → All (λ r. window_of r.time ≡ window) requests
      → 1 ≤ limiter.limit
      → length limiter.hits + length requests ≤ limiter.max_keys + 1
      → passed k requests limiter ≡ min (asked k requests) (left k window limiter)
  passed-asked k window [] limiter same some_limit room = omega arith
  passed-asked k window (r ∷ requests) limiter same some_limit room =
      let (short, same_limit, same_cap) = admit-length r.client r.time limiter in
      let grown = admit-grows r.client r.time limiter (omega arith) in
      let later =
        passed-asked k window requests (admit r.client r.time limiter).0 same.1
          (omega (arith, same_limit)) (omega (arith, grown, same_cap)) in
      elim (Bool-cases (e.beq r.client k)) [
        | inl mine ↦
            let run : admit r.client r.time limiter ≡ admit k r.time limiter =
              ap (λ c. admit c r.time limiter) ((e.beq_iff r.client k).0 mine) in
            let (answer, taken) = admit-left k r.time limiter some_limit (omega arith) in
            let answer' = rw same.0 at answer in
            let taken' = rw same.0 at taken in
            let later' = rw (run, taken') at later in rw (mine, run, answer', later') (ground arith)
        | inr other ↦
            let kept = rw same.0 at (admit-other k r.client r.time limiter (omega arith) other) in
            rw (other, later, kept) (omega arith)
      ]

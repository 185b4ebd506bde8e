-- ===== src/DataNode/Server/Order.antt =====
-- The order of the signals that the server sends.
use mathlib.Core.Path.{fun_ext}
use mathlib.Core.List.{append-nil, append_assoc}
use di_traffic_database.Common.{
  ℕ, suc, Bool, true, false, ◌+◌, ◌&&◌, ◌||◌, Option, none, some, List, [], ◌∷◌, ◌++◌, ◌≡◌, refl,
  arith, add64, u64, length, length-append, ◌==◌, if◌then◌else◌, inl, inr, subst, sym, ap, ◌∙◌,
}
use di_traffic_database.DataNode.Exceptions.{ok, ok-injective, thrown-ne-ok, Try-cases}
use di_traffic_database.DataNode.Text.{Str}
use di_traffic_database.DataNode.Maps.{Dict}
use di_traffic_database.DataNode.Json.{Libraries}
use di_traffic_database.DataNode.Requests.{Signal}
use di_traffic_database.DataNode.Server.{
  Server, create, is_known, handle_new_region, new_signal, parse_request, parse_list,
  parse_requests, send_region_request, send_all, run, requests_of, with_signal,
}
use di_traffic_database.DataNode.Server.Known.{
  is_create, Parsed, skipped, creates, continues, parse_request-Returns,
}

-- The signals have the numbers from `n` on, modulo 2 ^ 64.
abbrev pub Numbered : ℕ → List Signal → Type 0
Numbered n [] = Unit {0}
Numbered n (s ∷ rest) = (s.request.header.request_id ≡ u64 n) × Numbered (suc n) rest

-- The regions that are known after one more signal.
abbrev pub learned : (ℕ → Bool) → Signal → ℕ → Bool
learned known s j = is_create s.request.payload && j == s.region_id || known j

-- The regions that are known after the signals, from the regions `known` before them.
abbrev pub known_after : (ℕ → Bool) → List Signal → ℕ → Bool
known_after known [] = known
known_after known (s ∷ rest) = known_after (learned known s) rest

-- A signal that does not create its region has a region that is known by then.
abbrev pub CreatedFirst : (ℕ → Bool) → List Signal → Type 0
CreatedFirst known [] = Unit {0}
CreatedFirst known (s ∷ rest) =
    ((is_create s.request.payload || known s.region_id) ≡ true)
    × CreatedFirst (learned known s) rest

Numbered-append :
    (n : ℕ) (xs ys : List Signal)
    → Numbered n xs
    → Numbered (n + length xs) ys
    → Numbered n (xs ++ ys)
Numbered-append n [] ys h k = subst (λ m. Numbered m ys) {x = n + 0} {y = n} (omega arith) k
Numbered-append n (x ∷ xs) ys h k = (
  h.0,
  Numbered-append (suc n) xs ys h.1 (
      subst (λ m. Numbered m ys) {x = n + suc (length xs)} {y = suc n + length xs} (omega arith) k),
)

known_after-append :
    (known : ℕ → Bool) (xs ys : List Signal)
    → known_after known (xs ++ ys) ≡ known_after (known_after known xs) ys
known_after-append known [] ys = refl
known_after-append known (x ∷ xs) ys = known_after-append (learned known x) xs ys

CreatedFirst-append :
    (known : ℕ → Bool) (xs ys : List Signal)
    → CreatedFirst known xs
    → CreatedFirst (known_after known xs) ys
    → CreatedFirst known (xs ++ ys)
CreatedFirst-append known [] ys h k = k
CreatedFirst-append known (x ∷ xs) ys h k = (h.0, CreatedFirst-append (learned known x) xs ys h.1 k)

known_after-grows :
    (known : ℕ → Bool) (xs : List Signal) (j : ℕ) → known j ≡ true → known_after known xs j ≡ true
known_after-grows known [] j h = h
known_after-grows known (x ∷ xs) j h = known_after-grows (learned known x) xs j (ground arith)

-- The regions of all the signals.
abbrev AllKnown : (ℕ → Bool) → List Signal → Type 0
AllKnown known [] = Unit {0}
AllKnown known (s ∷ rest) = (known s.region_id ≡ true) × AllKnown known rest

CreatedFirst-AllKnown :
    (known : ℕ → Bool) (xs : List Signal)
    → CreatedFirst known xs
    → AllKnown (known_after known xs) xs
CreatedFirst-AllKnown known [] h = tt
CreatedFirst-AllKnown known (x ∷ xs) h = (
  known_after-grows (learned known x) xs x.region_id (ground arith),
  CreatedFirst-AllKnown (learned known x) xs h.1,
)

send_all_lem :
    (s : Server) (signals : List Signal)
    → AllKnown (is_known s) signals
    → send_all s signals ≡ record s { sent = s.sent ++ signals }
unfolding send_all send_region_request
send_all_lem s [] h = ap (λ l. record s { sent = l }) (sym (append-nil s.sent))
send_all_lem s (x ∷ xs) h =
    let sends : send_region_request s x ≡ record s { sent = s.sent ++ (x ∷ []) } =
      rw (h.0, send_region_request) in
    rw (send_all, sends)
      (send_all_lem (record s { sent = s.sent ++ (x ∷ []) }) xs h.1
        ∙ ap (λ l. record s { sent = l }) (append_assoc s.sent (x ∷ []) xs))

-- What a request does that makes the signal `x`.
record Next (s s' : Server) (x : Signal) : Type 0 where
  number : x.request.header.request_id ≡ s.request_id
  allowed : (is_create x.request.payload || is_known s x.region_id) ≡ true
  number_after : s'.request_id ≡ add64 s.request_id 1
  known_next : is_known s' ≡ learned (is_known s) x
  sent : s'.sent ≡ s.sent

has-put : (s : Server) (id j : ℕ) → is_known (handle_new_region s id) j ≡ (j == id || is_known s j)
unfolding handle_new_region
has-put s id j = found (j == id) (s.region_engine_map j) _
  where
    found :
        (same : Bool) (o : Option Str) (name : Str)
        → elim (if same then some name else o) [ none ↦ false | some _ ↦ true ]
          ≡ (same || elim o [ none ↦ false | some _ ↦ true ])
    found true o name = refl
    found false o name = refl

module _ (now : ℕ → ℕ) where
  data Stepped (s : Server) (out : Server × Option Signal) : Type 0 where
    silent : out ≡ (s, none) → Stepped s out
    signalled : (s' : Server) (x : Signal) → out ≡ (s', some x) → Next s s' x → Stepped s out

  Parsed-Stepped : (s : Server) (out : Server × Option Signal) → Parsed now s out → Stepped s out
  unfolding new_signal handle_new_region is_create
  Parsed-Stepped s out (skipped e) = silent e
  Parsed-Stepped s out (creates id paras e) = signalled _ _ e (record {
    number = refl;
    allowed = refl;
    number_after = refl;
    known_next = fun_ext (λ j. has-put s id j);
    sent = refl;
  })
  Parsed-Stepped s out (continues id payload known no_create e) = signalled _ _ e (record {
    number = refl;
    allowed = ground arith;
    number_after = refl;
    known_next = fun_ext (λ j. ground arith);
    sent = refl;
  })

-- What the requests of one line do: `first` is the number of the first signal.
record Emitted (first : ℕ) (s s' : Server) (signals : List Signal) : Type 0 where
  numbered : Numbered first signals
  created_first : CreatedFirst (is_known s) signals
  known : is_known s' ≡ known_after (is_known s) signals
  number : s'.request_id ≡ u64 (first + length signals)
  sent : s'.sent ≡ s.sent

abbrev EmittedBy : ℕ → Server → Server × List Signal → Type 0
EmittedBy first s (s', xs) = Emitted first s s' xs

none_more-Emitted : (first : ℕ) (s : Server) → s.request_id ≡ u64 first → Emitted first s s []
none_more-Emitted first s start = record {
  numbered = tt;
  created_first = tt;
  known = refl;
  number = omega arith;
  sent = refl;
}

-- One signal, and then the others.
one_more-Emitted :
    (first : ℕ) (s s₁ : Server) (x : Signal) (out : Server × List Signal)
    → s.request_id ≡ u64 first
    → Next s s₁ x
    → EmittedBy (suc first) s₁ out
    → EmittedBy first s (with_signal (some x) out)
one_more-Emitted first s s₁ x (s', xs) start n h = record {
  numbered = (n.number ∙ start, h.numbered);
  created_first = (n.allowed, subst (λ known. CreatedFirst known xs) n.known_next h.created_first);
  known = h.known ∙ ap (λ known. known_after known xs) n.known_next;
  number = h.number ∙ omega arith;
  sent = h.sent ∙ n.sent;
}

module _ (now : ℕ → ℕ) where
  parse_list-Emitted :
      (requests : List (Dict Str)) (first : ℕ) (s : Server) (out : Server × List Signal)
      → s.request_id ≡ u64 first
      → parse_list now s requests ≡ ok out
      → EmittedBy first s out
  unfolding parse_list
  parse_list-Emitted [] first s out start e =
      subst (EmittedBy first s) (ok-injective e) (none_more-Emitted first s start)
  parse_list-Emitted (request ∷ requests) first s out start e =
      elim (Try-cases (parse_request now s request)) [
        | inr (x, failed) ↦ absurd (thrown-ne-ok (rw (failed, parse_list) at e))
        | inl (turn, read) ↦
            elim (Parsed-Stepped now s turn (parse_request-Returns now s request turn read)) [
              | silent same ↦
                  let done : parse_request now s request ≡ ok (s, none) = read ∙ ap ok same in
                  elim (Try-cases (parse_list now s requests)) [
                    | inr (x, failed) ↦ absurd (thrown-ne-ok (rw (done, failed, parse_list) at e))
                    | inl (rest, finished) ↦
                        let same : ok rest ≡ ok out = rw (done, finished, parse_list) at e in
                        subst (EmittedBy first s) (ok-injective same)
                          (parse_list-Emitted requests first s rest start finished)
                  ]
              | signalled s₁ x same n ↦
                  let done : parse_request now s request ≡ ok (s₁, some x) = read ∙ ap ok same in
                  elim (Try-cases (parse_list now s₁ requests)) [
                    | inr (y, failed) ↦ absurd (thrown-ne-ok (rw (done, failed, parse_list) at e))
                    | inl (rest, finished) ↦
                        let same : ok (with_signal (some x) rest) ≡ ok out =
                          rw (done, finished, parse_list) at e in
                        subst (EmittedBy first s) (ok-injective same) (
                          one_more-Emitted first s s₁ x rest start n (
                            parse_list-Emitted requests (suc first) s₁ rest
                              (n.number_after ∙ omega arith) finished))
                  ]
            ]
      ]

-- What the server has sent since its start.
pub record IsOrdered (s : Server) : Type 0 where
  pub numbered : Numbered 0 s.sent
  pub created_first : CreatedFirst (λ j. false) s.sent
  pub known : is_known s ≡ known_after (λ j. false) s.sent
  pub number : s.request_id ≡ u64 (length s.sent)

pub create-IsOrdered : IsOrdered create
unfolding create
create-IsOrdered = record { numbered = tt; created_first = tt; known = refl; number = refl }

sent-IsOrdered :
    (s : Server) (out : Server × List Signal)
    → IsOrdered s
    → EmittedBy (length s.sent) s out
    → IsOrdered (send_all out.0 out.1)
sent-IsOrdered s (s', xs) v h =
    let known_then : is_known s' ≡ known_after (λ j. false) (s.sent ++ xs) =
      h.known
      ∙ ap (λ known. known_after known xs) v.known
      ∙ sym (known_after-append (λ j. false) s.sent xs) in
    let all_known : AllKnown (is_known s') xs =
      subst (λ known. AllKnown known xs) (sym h.known)
        (CreatedFirst-AllKnown (is_known s) xs h.created_first) in
    let sends : send_all s' xs ≡ record s' { sent = s.sent ++ xs } =
      send_all_lem s' xs all_known ∙ ap (λ l. record s' { sent = l ++ xs }) h.sent in
    rw sends (record {
      numbered = Numbered-append 0 s.sent xs v.numbered (
          subst (λ n. Numbered n xs) {x = length s.sent} {y = 0 + length s.sent} (omega arith)
            h.numbered);
      created_first =
          CreatedFirst-append (λ j. false) s.sent xs v.created_first
            (subst (λ known. CreatedFirst known xs) v.known h.created_first);
      known = known_then;
      number = h.number ∙ ap u64 (sym (length-append s.sent xs));
    })

-- If the signals sent so far are in order, they are so after the server has read any lines without an
-- exception: they are numbered 0, 1, 2, ... modulo 2 ^ 64, and a region's first signal creates it. The
-- server knows the regions that signals have created, and no others.
pub run-IsOrdered :
    (now : ℕ → ℕ) (lib : Libraries) (lines : List Str) {s s' : Server}
    → IsOrdered s
    → run now lib s lines ≡ ok s'
    → IsOrdered s'
unfolding run parse_requests
run-IsOrdered now lib [] v e = subst IsOrdered (ok-injective e) v
run-IsOrdered now lib (line ∷ lines) {s = s} v e =
    elim (Try-cases (parse_requests now lib s line)) [
      | inr (x, failed) ↦ absurd (thrown-ne-ok (rw (failed, run) at e))
      | inl (out, read) ↦
          run-IsOrdered now lib lines
            (sent-IsOrdered s out v
              (parse_list-Emitted now (requests_of lib line) (length s.sent) s out v.number read))
            (rw (read, run) at e)
    ]

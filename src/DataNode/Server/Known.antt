-- ===== src/DataNode/Server/Known.antt =====
-- What one request does to the server.
use di_traffic_database.Common.{
  ℕ, Bool, true, false, not, ◌&&◌, Option, none, ◌≡◌, refl, arith, if◌then◌else◌, Bool-cases, inl,
  inr, subst, ◌⊎◌, [], ◌∷◌,
}
use di_traffic_database.DataNode.Exceptions.{
  Exception, Try, ok, thrown, ok-injective, thrown-ne-ok, Try-cases,
}
use di_traffic_database.DataNode.Text.{Str, codes, stoull, str_eq, str_eq_sound}
use di_traffic_database.DataNode.Maps.{Dict}
use di_traffic_database.DataNode.Requests.{
  CreateRegion, create_region, open_region, close_region, drop_region, Payload, write_payload,
  admin_payload, Signal,
}
use di_traffic_database.DataNode.Server.{
  Server, lacks, text_at, is, is_known, may_be_unknown, handle_new_region, new_signal, parse_write,
  parse_create, parse_admin, parse_request,
}

unfoldable pub is_create : Payload → Bool
is_create (write_payload request) = false
is_create (admin_payload (create_region paras)) = true
is_create (admin_payload (open_region force)) = false
is_create (admin_payload (close_region force)) = false
is_create (admin_payload (drop_region keep_files)) = false

module _ (now : ℕ → ℕ) where
  -- A request is skipped, or it creates its region, or its region is known; in the last two cases it
  -- gets the next number.
  pub data Parsed (s : Server) (out : Server × Option Signal) : Type 0 where
    skipped : out ≡ (s, none) → Parsed s out
    creates :
        (id : ℕ) (paras : CreateRegion)
        → out ≡ new_signal now (handle_new_region s id) id (admin_payload (create_region paras))
        → Parsed s out
    continues :
        (id : ℕ) (payload : Payload)
        → is_known s id ≡ true
        → is_create payload ≡ false
        → out ≡ new_signal now s id payload
        → Parsed s out

  parse_create-Parsed :
      (s : Server) (id : ℕ) (request : Dict Str) → Parsed s (parse_create now s id request)
  unfolding parse_create
  parse_create-Parsed s id request =
      elim (Bool-cases (lacks request (codes "regionName" ∷ codes "expr" ∷ codes "attrs" ∷ []))) [
        | inl short ↦ rw (parse_create, short) (skipped refl)
        | inr complete ↦ rw (parse_create, complete) (creates id _ refl)
      ]

  -- A region that may be unknown is only created.
  parse_admin-Parsed :
      (s : Server) (id : ℕ) (request : Dict Str)
      → (is request (codes "operation") (codes "CREATE") ≡ false → is_known s id ≡ true)
      → Parsed s (parse_admin now s id request)
  unfolding parse_admin is_create
  parse_admin-Parsed s id request known =
      elim (Bool-cases (lacks request (codes "operation" ∷ []))) [
        | inl short ↦ rw (parse_admin, short) (skipped refl)
        | inr complete ↦ elim (Bool-cases (is request (codes "operation") (codes "CREATE"))) [
          | inl creation ↦ rw (parse_admin, complete, creation) (parse_create-Parsed s id request)
          | inr other ↦ elim (Bool-cases (is request (codes "operation") (codes "OPEN"))) [
            | inl op ↦
                rw (parse_admin, complete, other, op) (continues id _ (known other) refl refl)
            | inr no_open ↦ elim (Bool-cases (is request (codes "operation") (codes "CLOSE"))) [
              | inl op ↦
                  rw (parse_admin, complete, other, no_open, op)
                    (continues id _ (known other) refl refl)
              | inr no_close ↦ elim (Bool-cases (is request (codes "operation") (codes "DROP"))) [
                | inl op ↦
                    rw (parse_admin, complete, other, no_open, no_close, op)
                      (continues id _ (known other) refl refl)
                | inr no_drop ↦
                    rw (parse_admin, complete, other, no_open, no_close, no_drop) (skipped refl)
              ]
            ]
          ]
        ]
      ]

  -- If a request raises no exception.
  abbrev Returns : Server → Try (Server × Option Signal) → Type 0
  Returns s result = (out : Server × Option Signal) → result ≡ ok out → Parsed s out

  returned : {s : Server} {out : Server × Option Signal} → Parsed s out → Returns s (ok out)
  returned {s} p out' e = subst (Parsed s) (ok-injective e) p

  failed : {s : Server} (x : Exception) → Returns s (thrown x)
  failed x out e = absurd (thrown-ne-ok e)

  parse_write-Returns :
      (s : Server) (id : ℕ) (request : Dict Str)
      → is_known s id ≡ true
      → Returns s (parse_write now s id request)
  unfolding parse_write is_create
  parse_write-Returns s id request known =
      elim (Bool-cases (lacks request (codes "timestamp" ∷ codes "jsonData" ∷ []))) [
        | inl short ↦ rw (parse_write, short) (returned (skipped refl))
        | inr complete ↦ elim (Try-cases (stoull (text_at request (codes "timestamp")))) [
          | inl (ts, read) ↦
              rw (parse_write, complete, read) (returned (continues id _ known refl refl))
          | inr (x, unread) ↦ rw (parse_write, complete, unread) (failed x)
        ]
      ]

  -- The part of the loop's body below the check for an unknown region.
  known_if :
      (s : Server) (id : ℕ) (request : Dict Str)
      → (not (is_known s id) && not (may_be_unknown request)) ≡ false
      → (is_known s id ≡ true)
        ⊎ ((is request (codes "type") (codes "ADMIN") ≡ true)
            × (is request (codes "operation") (codes "CREATE") ≡ true))
  unfolding may_be_unknown
  known_if s id request allowed = ground arith

  write_is_no_admin :
      (request : Dict Str)
      → is request (codes "type") (codes "WRITE") ≡ true
      → is request (codes "type") (codes "ADMIN") ≡ false
  unfolding str_eq
  write_is_no_admin request write =
      rw (str_eq_sound (text_at request (codes "type")) (codes "WRITE") write)

  -- Requests past the check for an unknown region.
  admitted : Server → ℕ → Dict Str → Try (Server × Option Signal)
  admitted s id request =
      if is request (codes "type") (codes "WRITE")
      then parse_write now s id request
      else if is request (codes "type") (codes "ADMIN")
      then ok (parse_admin now s id request)
      else ok (s, none)

  admitted-Returns :
      (s : Server) (id : ℕ) (request : Dict Str)
      → (not (is_known s id) && not (may_be_unknown request)) ≡ false
      → Returns s (admitted s id request)
  unfolding admitted
  admitted-Returns s id request allowed =
      elim (Bool-cases (is request (codes "type") (codes "WRITE"))) [
        | inl write ↦
            rw (admitted, write)
              (parse_write-Returns s id request
                (ground (arith, known_if s id request allowed, write_is_no_admin request write)))
        | inr no_write ↦ elim (Bool-cases (is request (codes "type") (codes "ADMIN"))) [
          | inl admin ↦
              rw (admitted, no_write, admin)
                (returned (
                  parse_admin-Parsed s id request
                    (λ other. ground (arith, known_if s id request allowed))))
          | inr unknown_type ↦ rw (admitted, no_write, unknown_type) (returned (skipped refl))
        ]
      ]

  pub parse_request-Returns :
      (s : Server) (request : Dict Str) → Returns s (parse_request now s request)
  unfolding parse_request admitted
  parse_request-Returns s request =
      elim (Bool-cases (lacks request (codes "type" ∷ codes "regionID" ∷ []))) [
        | inl short ↦ rw (parse_request, short) (returned (skipped refl))
        | inr complete ↦ elim (Try-cases (stoull (text_at request (codes "regionID")))) [
          | inr (x, unread) ↦ rw (parse_request, complete, unread) (failed x)
          | inl (id, read) ↦
              elim (Bool-cases (not (is_known s id) && not (may_be_unknown request))) [
                | inl refused ↦
                    rw (parse_request, complete, read, refused) (returned (skipped refl))
                | inr allowed ↦
                    rw (parse_request, complete, read, allowed)
                      (admitted-Returns s id request allowed)
              ]
        ]
      ]

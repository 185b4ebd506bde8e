-- ===== src/DataNode/Server/Writes.antt =====
-- Which writes reach the engine: those of the request texts, read without the server's code.
use di_traffic_database.Common.{
  ℕ, false, ◌&&◌, Option, none, some, List, [], ◌∷◌, ◌++◌, ◌≡◌, refl, ◌==◌, if◌then◌else◌,
}
use di_traffic_database.DataNode.Exceptions.{ok, thrown}
use di_traffic_database.DataNode.Text.{Str, codes, stoull, str_eq}
use di_traffic_database.DataNode.Maps.{Dict, find}
use di_traffic_database.DataNode.Json.{Libraries}
use di_traffic_database.DataNode.Requests.{
  WriteRequest, Payload, write_payload, admin_payload, Signal,
}
use di_traffic_database.DataNode.Server.{Server, requests_of}

-- The time and the row of a request, if it has both.
abbrev pub fields_of : Dict Str → Option WriteRequest
fields_of request = elim (find (codes "timestamp") request) [
  | none ↦ none
  | some time ↦ elim (find (codes "jsonData") request) [
    | none ↦ none
    | some row ↦ elim (stoull time) [
      | thrown x ↦ none
      | ok ts ↦ some (record { timestamp = ts; json_data = row })
    ]
  ]
]

-- The write to the region `id` that a request asks for.
abbrev pub asked : ℕ → Dict Str → Option WriteRequest
asked id request = elim (find (codes "type") request) [
  | none ↦ none
  | some type ↦ elim (find (codes "regionID") request) [
    | none ↦ none
    | some region ↦ elim (stoull region) [
      | thrown x ↦ none
      | ok j ↦ if str_eq type (codes "WRITE") && j == id then fields_of request else none
    ]
  ]
]

abbrev pub consed {ℓ} : {A : Type ℓ} → Option A → List A → List A
consed none l = l
consed (some a) l = a ∷ l

abbrev pub all_asked : ℕ → List (Dict Str) → List WriteRequest
all_asked id [] = []
all_asked id (request ∷ requests) = consed (asked id request) (all_asked id requests)

-- The writes to the region `id` among the signals.
abbrev pub write_of : ℕ → Signal → Option WriteRequest
write_of id signal = elim signal.request.payload [
  | write_payload w ↦ if signal.region_id == id then some w else none
  | admin_payload r ↦ none
]

abbrev pub writes_in : ℕ → List Signal → List WriteRequest
writes_in id [] = []
writes_in id (signal ∷ signals) = consed (write_of id signal) (writes_in id signals)

module _ (now : ℕ → ℕ) (id : ℕ) where
  abbrev signal_write : Option Signal → Option WriteRequest
  signal_write none = none
  signal_write (some signal) = write_of id signal

pub write_elsewhere :
    (id : ℕ) (p : Payload) (j : ℕ)
    → (j == id) ≡ false
    → ◌≡◌ {A = Option WriteRequest}
        (elim p [ write_payload w ↦ if j == id then some w else none | admin_payload r ↦ none ])
        none
write_elsewhere id (write_payload w) j apart = rw apart
write_elsewhere id (admin_payload r) j apart = refl

-- The writes that the lines ask for.
abbrev pub all_lines_asked : Libraries → ℕ → List Str → List WriteRequest
all_lines_asked lib id [] = []
all_lines_asked lib id (line ∷ lines) =
    all_asked id (requests_of lib line) ++ all_lines_asked lib id lines

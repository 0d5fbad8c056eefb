-- ===== src/Tests/Logs.antt =====
-- A configuration of the log with two trusted roots.
use scaffolding.Base.{
  inl, inr, Bool, true, false, Bool-cases, arith, ◌≡◌, ◌↔◌, refl, Bytes, some, List, [], ◌∷◌, codes,
  Result, ok, In, Distinct, ◌==◌, if◌then◌else◌, bytes_dec, decimal,
}
use scaffolding.Base.Int.{pos}
use scaffolding.Base.Dict.{Dict, insert, keys}
use scaffolding.Ctlog.Config.{Config, extract_fulcio_root, add_fulcio_root, remove_fulcio_root}
use scaffolding.Ctlog.Config.Empty.{Panics, fulcio_root-Panics}
use scaffolding.Ctlog.Config.Roots.{
  IsAdded, add_fulcio_root-IsAdded, remove_fulcio_root-add_fulcio_root,
}
use scaffolding.Ctlog.Marshal.{marshal_config, unmarshal, fulcio_key}
use scaffolding.Ctlog.Marshal.Unique.{IsMap}
use scaffolding.Ctlog.Marshal.RoundTrip.{unmarshal-marshal_config}
use scaffolding.Tests.Wire.{write_parts, wire, wire-ReadsBack}

abbrev pub config : Config wire
config = record {
  priv_key = 1 ∷ 2 ∷ [];
  priv_key_password = codes "secret";
  pub_key = some (1 ∷ 2 ∷ []);
  log_id = pos 7;
  log_prefix = codes "sigstorescaffolding";
  trillian_server_addr = codes "log-server:80";
  fulcio_certs = (4 ∷ []) ∷ (5 ∷ []) ∷ [];
}

abbrev with_root : Config wire
with_root = record config { fulcio_certs = (4 ∷ []) ∷ (5 ∷ []) ∷ (6 ∷ []) ∷ [] }

-- The text of a chain whose last certificate is 6.
abbrev chain : Bytes
chain = 3 ∷ 6 ∷ []

adds : add_fulcio_root wire config chain ≡ ok with_root
unfolding add_fulcio_root extract_fulcio_root bytes_dec
adds = refl

extracts : extract_fulcio_root wire chain ≡ ok (6 ∷ [])
unfolding extract_fulcio_root
extracts = refl

absent : ¬ In (6 ∷ []) config.fulcio_certs
absent i = elim i [ inl e ↦ cc | inr (inl e) ↦ cc | inr (inr z) ↦ z ]

add_fulcio_root-IsAdded_example :
    (root : Bytes) × (extract_fulcio_root wire chain ≡ ok root)
    × IsAdded wire root config with_root
    × (Distinct config.fulcio_certs → Distinct with_root.fulcio_certs)
add_fulcio_root-IsAdded_example = add_fulcio_root-IsAdded wire config with_root chain adds

remove_fulcio_root-add_fulcio_root_example : remove_fulcio_root wire with_root chain ≡ ok config
remove_fulcio_root-add_fulcio_root_example =
    remove_fulcio_root-add_fulcio_root wire config with_root chain (6 ∷ []) extracts absent adds

fulcio_root-Panics_example :
    (Panics (add_fulcio_root wire config []) ↔ (wire.certs.unmarshal [] ≡ ok []))
    × (Panics (remove_fulcio_root wire config []) ↔ (wire.certs.unmarshal [] ≡ ok []))
fulcio_root-Panics_example =
    fulcio_root-Panics wire (λ x (t, p). cc (p)) config [] (λ (t, p). cc (p))

abbrev pub ok_or_empty : Result (Dict Bytes) → Dict Bytes
ok_or_empty (ok d) = d
ok_or_empty _ = []

abbrev pub written : Dict Bytes
written = ok_or_empty (marshal_config wire config)

writes : marshal_config wire config ≡ ok written
unfolding marshal_config write_parts
writes = refl

abbrev pub holds : Bytes → List Bytes → Bool
holds x [] = false
holds x (y ∷ l) = if y == x then true else holds x l

abbrev pub is_distinct : List Bytes → Bool
is_distinct [] = true
is_distinct (x ∷ l) = if holds x l then false else is_distinct l

In-holds : (x : Bytes) (l : List Bytes) → In x l → holds x l ≡ true
In-holds x [] i = absurd i
In-holds x (y ∷ l) (inl e) = ground arith
In-holds x (y ∷ l) (inr i) = ground (arith, In-holds x l i)

pub is_distinct-Distinct : (l : List Bytes) → is_distinct l ≡ true → Distinct l
is_distinct-Distinct [] h = tt
is_distinct-Distinct (x ∷ l) h = elim (Bool-cases (holds x l)) [
  | inl e ↦ absurd (cc (rw e at h))
  | inr e ↦ (λ i. cc (e, In-holds x l i), is_distinct-Distinct l (rw e at h))
]

written-IsMap : IsMap written
unfolding marshal_config write_parts keys insert fulcio_key decimal bytes_dec
written-IsMap = is_distinct-Distinct (keys written) refl

unmarshal-marshal_config_example :
    (certs : List Bytes) × (unmarshal wire written
      ≡ ok (record config { pub_key = some config.priv_key; fulcio_certs = certs }))
    × ((x : Bytes) → In x certs ↔ In x config.fulcio_certs)
    × Distinct certs
unmarshal-marshal_config_example =
    unmarshal-marshal_config wire wire-ReadsBack config written written writes written-IsMap
      (λ k. refl)

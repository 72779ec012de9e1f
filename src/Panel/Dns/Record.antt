-- ===== src/Panel/Dns/Record.antt =====
-- One record at its provider: reconcileRecord, recordValues and cleanupDisabledRecord of
-- panel/internal/dnsreconcile/service.go.
use Prim.Native.String.{◌++◌ as concat}
use ladder_airport.Base.{
  if◌then◌else◌, err, ok, ℕ, String, Bool, true, false, not, ◌||◌, Option, none, some, List, [],
  ◌∷◌, map, str_eq,
}
use Prim.Native.String.{compare}
use text.Mathlib.Text.{is_lt}
use ladder_airport.Panel.Dns.{
  RecordType, type_name, DnsRecord, Provider, Outside, call_lookup, call_upsert, call_delete,
}

unfoldable pub insert_value : String → List String → List String
insert_value x [] = x ∷ []
insert_value x (y ∷ ys) =
    let rest = insert_value x ys in if is_lt (compare y x) then y ∷ rest else x ∷ y ∷ ys

unfoldable pub sort_values : List String → List String
sort_values [] = []
sort_values (x ∷ xs) = insert_value x (sort_values xs)

-- `slices.Compact`: of equal neighbours the first is kept.
unfoldable pub compact : List String → List String
compact [] = []
compact (x ∷ []) = x ∷ []
compact (x ∷ y ∷ ys) = let rest = compact (y ∷ ys) in if str_eq x y then rest else x ∷ rest

unfoldable pub record_values : List DnsRecord → List String
unfolding sort_values insert_value compact
record_values records = compact (sort_values (map (λ r. r.value) records))

abbrev pub is_only : String → List String → Bool
is_only x (y ∷ []) = str_eq y x
is_only x _ = false

abbrev pub only_id : List DnsRecord → String
only_id (r ∷ []) = r.id
only_id _ = ""

abbrev pub is_none_found : List DnsRecord → Bool
is_none_found [] = true
is_none_found (_ ∷ _) = false

-- What `reconcileRecord` returns: the target without its desired value, and an error.
pub record Outcome : Type 0 where
  pub observed : List String
  pub record_id : String
  pub created : Bool
  pub failure : Option String

abbrev pub outcome : List String → String → Bool → Option String → Outcome
outcome observed record_id created failure = record {
  observed = observed;
  record_id = record_id;
  created = created;
  failure = failure;
}

module _ {S : Type 0} where
  -- After the write: the provider is asked again.
  unfoldable pub verify_record :
      Provider S
      → String
      → String
      → RecordType
      → String
      → Bool
      → List String
      → String
      → Outside S
      → Outcome × Outside S
  verify_record provider zone name type desired created observed id w =
      let (r, w') = call_lookup provider zone name type w in
      (
        elim r [
          | err e ↦ outcome observed id created (some e)
          | ok records ↦ outcome (record_values records) id created (
              if is_only desired (record_values records)
              then none
              else some (concat (type_name type) " 记录写入后校验不一致"))
        ],
        w',
      )

  unfoldable pub write_record :
      Provider S
      → String
      → String
      → RecordType
      → String
      → ℕ
      → Bool
      → List String
      → Outside S
      → Outcome × Outside S
  write_record provider zone name type desired ttl created observed w =
      let (r, w') =
        call_upsert provider zone
          (record { id = ""; name = name; type = type; value = desired; ttl = ttl }) w in
      elim r [
        | err e ↦ (outcome observed "" created (some e), w')
        | ok ref ↦ verify_record provider zone name type desired created observed ref.id w'
      ]

  unfoldable pub reconcile_record :
      Provider S
      → String
      → String
      → RecordType
      → String
      → ℕ
      → Bool
      → Outside S
      → Outcome × Outside S
  reconcile_record provider zone name type desired ttl already_created w =
      if str_eq desired ""
      then (outcome [] "" already_created (some (concat (type_name type) " 记录没有可用目标地址")), w)
      else (let (r, w') = call_lookup provider zone name type w in
          elim r [
            | err e ↦ (outcome [] "" already_created (some e), w')
            | ok records ↦
                if is_only desired (record_values records)
                then (outcome (record_values records) (only_id records) already_created none, w')
                else write_record provider zone name type desired ttl
                    (already_created || is_none_found records) (record_values records) w'
          ])

  unfoldable pub cleanup_disabled_record :
      Provider S
      → String
      → String
      → RecordType
      → String
      → String
      → Bool
      → Outside S
      → Option String × Outside S
  cleanup_disabled_record provider zone name type value id created_by_panel w =
      if not created_by_panel || str_eq value ""
      then (none, w)
      else call_delete provider zone (record { id = id; name = name; type = type; value = value }) w

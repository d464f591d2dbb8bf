-- ===== src/Monitor/Json/Values.antt =====
-- The value that the JSON formatter writes of a hold table, whatever its white space.
use Prim.Native.String.{String}
use acq400_xrm.Prelude.{
  ℕ, zero, suc, ◌+◌, ◌≡◌, refl, sym, ap, ◌∙◌, Bool, true, false, not, Option, none, some, List, [],
  ◌∷◌, ◌++◌, map, ◌==◌, Bool-cases, inl, inr,
}
use mathlib.Core.List.{append-nil, append_assoc}
use acq400_xrm.Prelude.Int.{ℤ, to_bits}
use acq400_xrm.Prelude.Memory.{WordMem}
use acq400_xrm.Prelude.Returns.{bind-some}
use acq400_xrm.Prelude.Text.{Text, codes}
use acq400_xrm.Structs.{SoeHoldHeader, load_header}
use acq400_xrm.Monitor.{Entry, print_entry, parse}
use acq400_xrm.Monitor.Formats.{parse_with}
use acq400_xrm.Monitor.Json.{
  Token, padded, unsigned, hex, signed, comma, Line, print_intro, print_outro, print_header_intro,
  print_header_outro, print_header, items, print_wrus, print_egu, print_raw, entry_lines,
  json_print,
}
use acq400_xrm.Monitor.Json.Grammar.{
  Json, leaf, array, object, Items, nil, cons, Members, no_member, member, json, json_items,
  significant, solid, solid-append, leaves, significant-items, signed-IsSolid, hex-IsSolid,
  solid_none,
}

abbrev number : String → ℕ → Members → Members
number name n = member (codes name) (leaf (padded n))

-- The members of an entry.
abbrev pub header_json : SoeHoldHeader → Json
header_json h = object (
    number "pv_id" h.lut_row.pv_id (
      number "evt" h.lut_row.event (
        number "offset_us" (to_bits 32 h.lut_row.offset_us) (
          number "client_data" h.client_data (
            number "timestamp" (to_bits 64 h.timestamp) (
              number "data_offset" h.data_offset (
                number "ss_u32" h.ss_u32 (
                  number "ai_count" h.ai_count
                    (number "di_count" h.di_count (number "sp_count" h.sp_count no_member))))))))))

abbrev pub raw_json : Entry → Json
raw_json e = object (
    member (codes "ai16") (array (leaves (map signed e.ai16))) (
      member (codes "di32") (array (leaves (map hex e.di32))) (
        member (codes "sp32") (array (leaves (map hex e.sp32))) (
          member (codes "WRVS") (leaf (unsigned e.wrvs)) (
            member (codes "WRVT") (leaf (unsigned e.wrvt))
              (member (codes "WRUS") (leaf (unsigned e.wrus)) no_member))))))

abbrev pub entry_json : Entry → Json
entry_json e =
    object (member (codes "HDR") (header_json e.hdr) (member (codes "RAW") (raw_json e) no_member))

abbrev pub entries_json : List Entry → Items
entries_json [] = nil
entries_json (e ∷ es) = cons (entry_json e) (entries_json es)

-- The value for a table: an object whose member HT lists the entries.
abbrev pub table_json : List Entry → Json
table_json es = object (member (codes "HT") (array (entries_json es)) no_member)

abbrev pub is_nil : List Entry → Bool
is_nil [] = true
is_nil (e ∷ es) = false

abbrev pub lines_of : Option (List ℤ → List Text) → List Entry → List Line
lines_of egu [] = []
lines_of egu (e ∷ es) = entry_lines egu (not (is_nil es)) e ++ lines_of egu es

abbrev separator : Bool → List Token → List Token
separator true rest = comma ∷ rest
separator false rest = rest

signed_values :
    (xs : List ℤ) (ts rest : List Token)
    → significant (items (map signed xs) ++ ts) rest
      ≡ json_items (leaves (map signed xs)) (significant ts rest)
signed_values xs ts rest = significant-items signed xs ts rest signed-IsSolid

hex_values :
    (xs : List ℕ) (ts rest : List Token)
    → significant (items (map hex xs) ++ ts) rest
      ≡ json_items (leaves (map hex xs)) (significant ts rest)
hex_values xs ts rest = significant-items hex xs ts rest hex-IsSolid

solid-entry_lines :
    (last : Bool) (e : Entry) (rest : List Token)
    → solid (entry_lines none last e) rest ≡ json (entry_json e) (separator last rest)
unfolding solid significant json print_header_intro print_header print_raw print_wrus print_egu
    print_header_outro
solid-entry_lines true e rest = rw (signed_values, hex_values e.di32, hex_values e.sp32) refl
solid-entry_lines false e rest = rw (signed_values, hex_values e.di32, hex_values e.sp32) refl

solid-lines_of :
    (es : List Entry) (rest : List Token)
    → solid (lines_of none es) rest ≡ json_items (entries_json es) rest
unfolding json
solid-lines_of [] rest = solid_none rest
solid-lines_of (e ∷ []) rest =
    solid-append (entry_lines none false e) [] rest
    ∙ ap (solid (entry_lines none false e)) (solid_none rest)
    ∙ solid-entry_lines false e rest
solid-lines_of (e ∷ e' ∷ es) rest =
    solid-append (entry_lines none true e) (lines_of none (e' ∷ es)) rest
    ∙ ap (solid (entry_lines none true e)) (solid-lines_of (e' ∷ es) rest)
    ∙ solid-entry_lines true e (json_items (entries_json (e' ∷ es)) rest)

pub solid-table :
    (es : List Entry)
    → solid ((print_intro ++ lines_of none es) ++ print_outro) [] ≡ json (table_json es) []
unfolding json solid significant print_intro print_outro
solid-table es =
    solid-append (print_intro ++ lines_of none es) print_outro []
    ∙ solid-append print_intro (lines_of none es) (solid print_outro [])
    ∙ ap (solid print_intro) (solid-lines_of es (solid print_outro []))

-- A row with pv_id 0 is where the entries end.
parse-nil :
    (fuel row : ℕ) (ht : WordMem) (es : List Entry)
    → parse (suc fuel) ht row ≡ some es
    → ((load_header ht row).lut_row.pv_id == 0) ≡ true
    → es ≡ []
unfolding parse
parse-nil fuel row ht es h e = cc (rw e at h)

entry_at : WordMem → ℕ → Entry
entry_at ht row = let h = load_header ht row in print_entry h (λ j. ht (h.data_offset + j))

parse-cons :
    (fuel row : ℕ) (ht : WordMem) (es : List Entry)
    → parse (suc fuel) ht row ≡ some es
    → ((load_header ht row).lut_row.pv_id == 0) ≡ false
    → (es' : List Entry) × (parse fuel ht (row + 1) ≡ some es') × (es ≡ entry_at ht row ∷ es')
unfolding parse entry_at
parse-cons fuel row ht es h e =
    let (es', q, k) =
      bind-some (parse fuel ht (row + 1)) (λ r. some (entry_at ht row ∷ r)) (rw e at h) in
    (es', q, cc k)

parse-is_nil :
    (fuel row : ℕ) (ht : WordMem) (es : List Entry)
    → parse fuel ht row ≡ some es
    → ((load_header ht row).lut_row.pv_id == 0) ≡ is_nil es
unfolding parse
parse-is_nil zero row ht es h = cc
parse-is_nil (suc fuel) row ht es h = elim (Bool-cases ((load_header ht row).lut_row.pv_id == 0)) [
  | inl e ↦ e ∙ ap is_nil (sym (parse-nil fuel row ht es h e))
  | inr e ↦ e ∙ ap is_nil (sym (parse-cons fuel row ht es h e).2)
]

pub parse_with-json_print :
    (egu : Option (List ℤ → List Text)) (fuel row : ℕ) (ht : WordMem) (es : List Entry)
    (out : List Line)
    → parse fuel ht row ≡ some es
    → parse_with (json_print egu ht) fuel ht row out ≡ some (out ++ lines_of egu es)
unfolding parse parse_with json_print entry_at
parse_with-json_print egu zero row ht es out h = cc
parse_with-json_print egu (suc fuel) row ht es out h =
    elim (Bool-cases ((load_header ht row).lut_row.pv_id == 0)) [
      | inl e ↦ rw (e, parse-nil fuel row ht es h e) (ap some (sym (append-nil out)))
      | inr e ↦
          let (es', q, k) = parse-cons fuel row ht es h e in
          let n = parse-is_nil fuel (row + 1) ht es' q in
          rw (e, k)
            (parse_with-json_print egu fuel (row + 1) ht es' (json_print egu ht row out) q
              ∙ ap
                  (λ b.
                    some ((out ++ entry_lines egu (not b) (entry_at ht row)) ++ lines_of egu es'))
                  n
              ∙ ap some (
                  append_assoc out (entry_lines egu (not (is_nil es')) (entry_at ht row))
                    (lines_of egu es')))
    ]

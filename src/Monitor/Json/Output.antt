-- ===== src/Monitor/Json/Output.antt =====
-- What the JSON formatter writes of a hold table is JSON, and its indentation comes back to the
-- margin.
use acq400_xrm.Prelude.{
  ℕ, ◌≡◌, refl, sym, ap, ◌∙◌, Bool, not, Option, none, some, List, [], ◌∷◌, ◌++◌,
}
use mathlib.Core.Path.{subst}
use acq400_xrm.Prelude.Int.{ℤ}
use acq400_xrm.Prelude.Memory.{WordMem}
use acq400_xrm.Prelude.Returns.{Returns, bind-some}
use acq400_xrm.Prelude.Text.{Text}
use acq400_xrm.Monitor.{Entry, parse}
use acq400_xrm.Monitor.Formats.{parse_with}
use acq400_xrm.Monitor.Json.{
  Token, tabs, Indent, indent, Line, layout, print_intro, print_outro, print_header_intro,
  print_header_outro, print_header, print_wrus, print_egu, print_raw, entry_lines, json_print,
}
use acq400_xrm.Monitor.Json.Grammar.{json, significant, solid, significant-append}
use acq400_xrm.Monitor.Json.Values.{
  is_nil, lines_of, table_json, solid-table, parse_with-json_print,
}

abbrev at : ℕ → ℕ → Indent
at n level = record { tabs_in_str = n; level = level }

-- The lines are written, from one state of indent() to another.
abbrev pub Ends : Indent → Indent → List Line → Type 0
Ends s t ls = Returns (λ (r : List Token × Indent). r.1 ≡ t) (layout ls s)

layout-cons :
    (l : Line) (ls : List Line) (s : Indent) {r : List Token × Indent}
    → layout (l ∷ ls) s ≡ some r
    → (n : ℕ) × (s' : Indent) × (out : List Token) × (indent l.delta s ≡ some (n, s'))
      × (layout ls s' ≡ some (out, r.1))
      × (r.0 ≡ tabs n ∷ l.tokens ++ out)
unfolding layout
layout-cons l ls s e =
    let ((n, s'), a, b) = bind-some (indent l.delta s) _ e in
    let ((out, t), c, d) = bind-some (layout ls s') _ b in (n, s', out, a, c ∙ cc d, cc d)

Ends-append : (ls ms : List Line) (s t u : Indent) → Ends s t ls → Ends t u ms → Ends s u (ls ++ ms)
unfolding layout
Ends-append [] ms s t u r q = subst (λ x. Ends x u ms) {x = t} {y = s} (sym (r.2) ∙ cc (r.1)) q
Ends-append (l ∷ ls) ms s t u r q =
    let (n, s', out, a, c, d) = layout-cons l ls s (r.1) in
    let (x, e, k) = Ends-append ls ms s' t u (_, c, r.2) q in
    ((tabs n ∷ l.tokens ++ x.0, x.1), rw (a, e) refl, k)

-- An entry begins and ends at the level 1, whatever else str holds.
Ends-entry_lines :
    (egu : Option (List ℤ → List Text)) (more : Bool) (e : Entry)
    → Ends (at 0 1) (at 1 1) (entry_lines egu more e)
      × Ends (at 1 1) (at 1 1) (entry_lines egu more e)
unfolding layout indent print_header_intro print_header print_raw print_wrus print_egu
    print_header_outro
Ends-entry_lines none more e = ((_, refl, refl), (_, refl, refl))
Ends-entry_lines (some volts) more e = ((_, refl, refl), (_, refl, refl))

layout-solid :
    (ls : List Line) (s : Indent) {r : List Token × Indent} (rest : List Token)
    → layout ls s ≡ some r
    → significant (r.0) rest ≡ solid ls rest
unfolding significant solid layout
layout-solid [] s {r} rest e = ap (λ t. significant t rest) {x = r.0} {y = []} (cc e)
layout-solid (l ∷ ls) s rest e =
    let (n, s', out, a, c, d) = layout-cons l ls s e in
    ap (λ t. significant t rest) d
    ∙ significant-append l.tokens out rest
    ∙ ap (significant l.tokens) (layout-solid ls s' rest c)

Ends-lines_of :
    (egu : Option (List ℤ → List Text)) (es : List Entry) → Ends (at 1 1) (at 1 1) (lines_of egu es)
unfolding layout
Ends-lines_of egu [] = (_, refl, refl)
Ends-lines_of egu (e ∷ es) =
    Ends-append (entry_lines egu (not (is_nil es)) e) (lines_of egu es) (at 1 1) (at 1 1) (at 1 1)
      (Ends-entry_lines egu (not (is_nil es)) e).1 (Ends-lines_of egu es)

-- The whole output, with a table or without entries.
Ends-table :
    (egu : Option (List ℤ → List Text)) (es : List Entry)
    → Ends (at 0 0) (at 0 0) ((print_intro ++ lines_of egu es) ++ print_outro)
unfolding layout indent print_intro print_outro
Ends-table egu [] = (_, refl, refl)
Ends-table egu (e ∷ es) =
    Ends-append (print_intro ++ lines_of egu (e ∷ es)) print_outro (at 0 0) (at 1 1) (at 0 0)
      (Ends-append print_intro (lines_of egu (e ∷ es)) (at 0 0) (at 0 1) (at 1 1) (_, refl, refl)
        (Ends-append (entry_lines egu (not (is_nil es)) e) (lines_of egu es) (at 0 1) (at 1 1)
          (at 1 1) (Ends-entry_lines egu (not (is_nil es)) e).0 (Ends-lines_of egu es)))
      (_, refl, refl)

-- Without -e, the JSON formatter writes JSON: where parse() ends with the entries `es`, it prints
-- the same ones, indent() never runs over its 80 bytes and is at the margin again for the next
-- update, and but for white space the output is the value that lists `es` under HT.
pub json_print-table_json :
    (fuel : ℕ) (ht : WordMem) (es : List Entry)
    → parse fuel ht 0 ≡ some es
    → (lines : List Line) × (out : List Token) × (parse_with
          (json_print none ht)
          fuel
          ht
          0
          print_intro
        ≡ some lines)
      × (layout (lines ++ print_outro) (at 0 0) ≡ some (out, at 0 0))
      × (significant out [] ≡ json (table_json es) [])
json_print-table_json fuel ht es h =
    let (r, e, q) = Ends-table none es in
    (
      print_intro ++ lines_of none es,
      r.0,
      parse_with-json_print none fuel 0 ht es print_intro h,
      e ∙ ap (λ t. some (r.0, t)) q,
      layout-solid ((print_intro ++ lines_of none es) ++ print_outro) (at 0 0) [] e
          ∙ solid-table es,
    )

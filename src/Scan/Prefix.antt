-- ===== src/Scan/Prefix.antt =====
-- src/scan.c: a keyword needs no white space behind it.
use hvme.Prelude.{
  ℕ, suc, ◌+◌, ◌-◌, ◌%◌, ◌^◌, ◌≡◌, ◌∙◌, ap, refl, false, List, [], ◌∷◌, ◌++◌, length, drop,
  replicate,
}
use hvme.Inst.{Pos}
use hvme.Token.{TokenCode, code}
use hvme.Scan.{incby, token_from_fn, keyword, max_ident_len}
use hvme.Scan.Block.{eat_ws_from, Output, scan_blk}
use hvme.Scan.Match.{Hit}
use hvme.Scan.Keywords.{strs, IsKeyword, find-strs}
use hvme.Scan.Names.{drop-front}
use hvme.Scan.Written.{scan_blk-hit, made, keyword-Says, keyword-Starts}

-- Outside of a comment, a text that starts with a keyword is read as this keyword's token, whatever
-- stands behind it: letters too, with which the scanner goes on after white space, if any.
pub scan_blk-keyword :
    (fuel : ℕ) (t : TokenCode) (text : List ℕ) (pos : Pos) (o : Output)
    → IsKeyword t
    → o.vars.inside_comment ≡ false
    → (let next =
          eat_ws_from text (record { ln = pos.ln; cl = (pos.cl + length (strs t)) % 2 ^ 32 }) in
        scan_blk (suc fuel) (strs t ++ text) pos o
        ≡ scan_blk fuel next.text next.pos (record {
          cells =
              o.cells
              ++ record { t = t; pos = pos; uilit = o.vars.uilit; ident = o.vars.ident_buf } ∷ [];
          vars = record (o.vars) { uilit = 0; ident_buf = replicate max_ident_len b' ' };
        }))
unfolding made token_from_fn incby
scan_blk-keyword fuel t text pos o h outside =
    let p : Pos = record { ln = pos.ln; cl = (pos.cl + length (strs t)) % 2 ^ 32 } in
    let hit : Hit = record {
      fn_idx = code t - 1;
      fn = keyword (strs t);
      count = length (strs t);
      vars = o.vars;
    } in
    let end = λ (t' : TokenCode) (rest : List ℕ).
      (let next = eat_ws_from rest p in
        scan_blk fuel next.text next.pos (record {
          cells =
              o.cells
              ++ record { t = t'; pos = pos; uilit = o.vars.uilit; ident = o.vars.ident_buf } ∷ [];
          vars = record (o.vars) { uilit = 0; ident_buf = replicate max_ident_len b' ' };
        })) in
    scan_blk-hit fuel (strs t ++ text) pos o hit outside (keyword-Starts t text h)
      (find-strs t text o.vars h) refl
    ∙ ap (λ t'. end t' (drop (length (strs t)) (strs t ++ text))) (keyword-Says t h)
    ∙ ap (end t) (drop-front (strs t) text)

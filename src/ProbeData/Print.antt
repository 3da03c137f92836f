-- ===== src/ProbeData/Print.antt =====
-- What `operator<<` writes: every value followed by a semicolon, device by device.
use mathlib.Core.List.{append_assoc, append-nil}
use lpowerprobe.Common.{
  ℕ, suc, ◌+◌, ◌*◌, ◌≡◌, refl, ◌∙◌, sym, ap, some, List, [], ◌∷◌, ◌++◌, length, get_elem?, take,
  take-add_one, take_all, All, ◌>>=◌, arith, for_range, for_range_inv, get_elem?_of_lt,
}
use lpowerprobe.ProbeData.{
  ProbeData, Token, value, semicolon, label, newline, IsValid, get_cell, print,
}
use lpowerprobe.ProbeData.Cells.{row_of_shape}

module _ {W : Type 0} where
  abbrev pub row_text : List W → List (Token W)
  row_text [] = []
  row_text (v ∷ row) = value v ∷ semicolon ∷ row_text row

  abbrev pub matrix_text : List (List W) → List (Token W)
  matrix_text [] = []
  matrix_text (row ∷ m) = row_text row ++ matrix_text m

  -- The columns that a text opens.
  abbrev pub semicolons : List (Token W) → ℕ
  semicolons [] = 0
  semicolons (semicolon ∷ out) = suc (semicolons out)
  semicolons (value v ∷ out) = semicolons out
  semicolons (label s ∷ out) = semicolons out
  semicolons (newline ∷ out) = semicolons out

  pub semicolons-append :
      (xs ys : List (Token W)) → semicolons (xs ++ ys) ≡ semicolons xs + semicolons ys
  semicolons-append [] ys = omega arith
  semicolons-append (semicolon ∷ xs) ys = omega (arith, semicolons-append xs ys)
  semicolons-append (value v ∷ xs) ys = semicolons-append xs ys
  semicolons-append (label s ∷ xs) ys = semicolons-append xs ys
  semicolons-append (newline ∷ xs) ys = semicolons-append xs ys

  semicolons-row_text : (row : List W) → semicolons (row_text row) ≡ length row
  semicolons-row_text [] = refl
  semicolons-row_text (v ∷ row) = ap suc (semicolons-row_text row)

  pub semicolons-matrix_text :
      (nc : ℕ) (m : List (List W))
      → All (λ row. length row ≡ nc) m
      → semicolons (matrix_text m) ≡ length m * nc
  semicolons-matrix_text nc [] a = omega arith
  semicolons-matrix_text nc (row ∷ m) a = omega (
    arith,
    a.0,
    semicolons-append (row_text row) (matrix_text m),
    semicolons-row_text row,
    semicolons-matrix_text nc m a.1,
  )

  row_text-append : (xs ys : List W) → row_text (xs ++ ys) ≡ row_text xs ++ row_text ys
  row_text-append [] ys = refl
  row_text-append (x ∷ xs) ys = rw (row_text-append xs ys)

  matrix_text-append :
      (xs ys : List (List W)) → matrix_text (xs ++ ys) ≡ matrix_text xs ++ matrix_text ys
  matrix_text-append [] ys = refl
  matrix_text-append (x ∷ xs) ys = simp (matrix_text-append xs ys, append_assoc)

  print_row :
      (m : List (List W)) (d nc : ℕ) (row : List W) (stream : List (Token W))
      → get_elem? m d ≡ some row
      → length row ≡ nc
      → for_range nc 0
          (λ channel out. get_cell m d channel >>= λ v. some (out ++ (value v ∷ semicolon ∷ [])))
          stream
        ≡ some (stream ++ row_text row)
  unfolding get_cell
  print_row m d nc row stream e l =
      let (out, ran, p) =
        for_range_inv (λ c out. out ≡ stream ++ row_text (take c row)) _ nc 0 nc stream
          (λ c out hc q.
            let (v, at) = get_elem?_of_lt row c (omega arith) in
            (
              out ++ (value v ∷ semicolon ∷ []),
              rw (e, at),
              rw (q, take-add_one row c at, row_text-append) (append_assoc stream _ _),
            ))
          (omega arith) (sym (append-nil stream)) in
      ran ∙ ap some (p ∙ ap (λ t. stream ++ row_text t) (take_all row nc l))

  -- A valid `ProbeData` is written without a fault: after what the stream held come its rows, each
  -- value followed by a semicolon.
  pub print_lem :
      (stream : List (Token W)) (pd : ProbeData W)
      → IsValid pd
      → print stream pd ≡ some (stream ++ matrix_text pd.values)
  unfolding print
  print_lem stream pd v =
      let (out, ran, p) =
        for_range_inv (λ d out. out ≡ stream ++ matrix_text (take d pd.values)) _ pd.nb_devices 0
          pd.nb_devices stream
          (λ d out hd q.
            let (row, e, l) = row_of_shape v d hd in
            (
              out ++ row_text row,
              print_row pd.values d pd.nb_channels row out e l,
              rw (q, take-add_one pd.values d e, matrix_text-append, append-nil)
                  (append_assoc stream _ _),
            ))
          (omega arith) (sym (append-nil stream)) in
      ran
      ∙ ap some (p ∙ ap (λ t. stream ++ matrix_text t) (take_all pd.values pd.nb_devices v.rows))

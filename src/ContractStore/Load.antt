-- ===== src/ContractStore/Load.antt =====
-- What NewContractStore loads from the directory of ABI files.
use seth.Prelude.{
  List, [], ◌∷◌, ◌≡◌, ◌≢◌, arith, true, false, Bool-cases, inl, inr, sym, ◌∙◌, All, some, ℕ,
}
use seth.Prelude.Text.{Text, text_dec, has_suffix}
use seth.Prelude.Errors.{Result, ok, bind-eq-ok, wrap_err, wrap_err-ok}
use seth.Prelude.Map.{Map, lookup, insert, lookup-insert}
use seth.ContractMap.{abi_suffix}
use seth.ContractStore.{
  ContractStore, DirEntry, load_abis, read_abis, read_bins, new_contract_store, err_open_abi_file,
  err_parse_abi,
}
use seth.ContractStore.Names.{WellNamed, insert-WellNamed}

module _ {Abi : Type 0} where
  module _ (parse_abi : Text → Result Abi) where
    -- One round of the loop over an ABI file.
    load_abis_file :
        (f : DirEntry) (files : List DirEntry) (m m' : Map Text Abi)
        → has_suffix f.name abi_suffix ≡ true
        → load_abis parse_abi (f ∷ files) m ≡ ok m'
        → (ff : Text) × (a : Abi) × (f.opened ≡ ok ff)
          × (parse_abi ff ≡ ok a)
          × (load_abis parse_abi files (insert text_dec f.name a m) ≡ ok m')
    unfolding load_abis
    load_abis_file f files m m' e h =
        let (ff, o, h1) = bind-eq-ok (wrap_err err_open_abi_file f.opened) _ (rw e at h) in
        let (a, p, h2) = bind-eq-ok (wrap_err err_parse_abi (parse_abi ff)) _ h1 in
        (
          ff,
          a,
          wrap_err-ok err_open_abi_file f.opened o,
          wrap_err-ok err_parse_abi (parse_abi ff) p,
          h2,
        )

    load_abis_other :
        (f : DirEntry) (files : List DirEntry) (m : Map Text Abi)
        → has_suffix f.name abi_suffix ≡ false
        → load_abis parse_abi (f ∷ files) m ≡ load_abis parse_abi files m
    unfolding load_abis
    load_abis_other f files m e = rw e

    load_abis-WellNamed :
        (files : List DirEntry) (m m' : Map Text Abi)
        → WellNamed m
        → load_abis parse_abi files m ≡ ok m'
        → WellNamed m'
    load_abis-WellNamed [] m m' w h = unfold load_abis in ground arith
    load_abis-WellNamed (f ∷ files) m m' w h = elim (Bool-cases (has_suffix f.name abi_suffix)) [
      | inl e ↦
          let s = load_abis_file f files m m' e h in
          load_abis-WellNamed files (insert text_dec f.name s.1 m) m'
            (insert-WellNamed f.name s.1 m e w) s.4
      | inr e ↦ load_abis-WellNamed files m m' w (sym (load_abis_other f files m e) ∙ h)
    ]

    lookup-load_abis :
        (k : Text) (files : List DirEntry) (m m' : Map Text Abi)
        → All (λ g. g.name ≢ k) files
        → load_abis parse_abi files m ≡ ok m'
        → lookup text_dec k m' ≡ lookup text_dec k m
    lookup-load_abis k [] m m' n h = unfold load_abis in ground arith
    lookup-load_abis k (f ∷ files) m m' n h = elim (Bool-cases (has_suffix f.name abi_suffix)) [
      | inl e ↦
          let s = load_abis_file f files m m' e h in
          lookup-load_abis k files (insert text_dec f.name s.1 m) m' n.1 s.4
          ∙ ground (arith, lookup-insert text_dec f.name k s.1 m, n.0)
      | inr e ↦ lookup-load_abis k files m m' n.1 (sym (load_abis_other f files m e) ∙ h)
    ]

    -- The file is opened and parsed, and the result stands under its name.
    abbrev pub IsLoaded : Map Text Abi → DirEntry → Type 0
    IsLoaded m f =
        has_suffix f.name abi_suffix ≡ true
        → (ff : Text) × (a : Abi) × (f.opened ≡ ok ff)
          × (parse_abi ff ≡ ok a)
          × (lookup text_dec f.name m ≡ some a)

    -- A directory has no two files of one name.
    abbrev pub DistinctNames : List DirEntry → Type 0
    DistinctNames [] = Unit
    DistinctNames (f ∷ files) = All (λ g. g.name ≢ f.name) files × DistinctNames files

    load_abis-IsLoaded :
        (files : List DirEntry) (m m' : Map Text Abi)
        → DistinctNames files
        → load_abis parse_abi files m ≡ ok m'
        → All (IsLoaded m') files
    load_abis-IsLoaded [] m m' d h = tt
    load_abis-IsLoaded (f ∷ files) m m' d h = elim (Bool-cases (has_suffix f.name abi_suffix)) [
      | inl e ↦
          let s = load_abis_file f files m m' e h in
          let m1 = insert text_dec f.name s.1 m in
          (
            λ abi_file. (
              s.0,
              s.1,
              s.2,
              s.3,
              lookup-load_abis f.name files m1 m' d.0 s.4
                  ∙ ground (arith, lookup-insert text_dec f.name f.name s.1 m),
            ),
            load_abis-IsLoaded files m1 m' d.1 s.4,
          )
      | inr e ↦ (
        λ abi_file. cc,
        load_abis-IsLoaded files m m' d.1 (sym (load_abis_other f files m e) ∙ h),
      )
    ]

    -- Where NewContractStore succeeds on a directory of ABIs, each file with the suffix ".abi" was
    -- opened and parsed and its ABI stands under its name, and every name of the store ends in ".abi"
    -- and stands once. So one file that cannot be opened or parsed makes it fail.
    pub new_contract_store-IsLoaded :
        (from_hex : Text → List ℕ) (read_dir : Text → Result (List DirEntry))
        (abi_path bin_path : Text) (files : List DirEntry) (s : ContractStore Abi)
        → abi_path ≢ []
        → read_dir abi_path ≡ ok files
        → DistinctNames files
        → new_contract_store read_dir parse_abi from_hex abi_path bin_path ≡ ok s
        → WellNamed s.abis × All (IsLoaded s.abis) files
    unfolding new_contract_store read_abis
    new_contract_store-IsLoaded from_hex read_dir abi_path bin_path files s p r d h =
        let (abis, a, h1) = bind-eq-ok (read_abis read_dir parse_abi abi_path) _ h in
        let (bins, b, h2) = bind-eq-ok (read_bins read_dir from_hex bin_path) _ h1 in
        let e : abis ≡ s.abis = ground (arith, h2) in
        let l : load_abis parse_abi files [] ≡ ok abis = ground (arith, a, r) in
        rw (← e) (load_abis-WellNamed files [] abis tt l, load_abis-IsLoaded files [] abis d l)

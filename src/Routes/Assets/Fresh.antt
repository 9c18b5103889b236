-- ===== src/Routes/Assets/Fresh.antt =====
-- A client that sends back the tag of an asset is told that its copy is good.
use weiterleitung.Prelude.{
  ℕ, zero, suc, ◌/◌, ◌%◌, ◌<◌, ◌≡◌, refl, ◌∙◌, ap, inl, inr, Bool, true, false, not, Bool-cases,
  ◌==◌, any, all, all-append, List, [], ◌∷◌, ◌++◌, some, arith,
}
use weiterleitung.Text.{Text, lit, eq_text, eq_text_refl, is_whitespace}
use weiterleitung.Text.Trim.{
  trim, Ends, trim_start_matches, trim_end_matches, trim_end_matches-same, trim_start_matches-same,
}
use weiterleitung.WebTemplates.{asset}
use weiterleitung.Routes.Assets.{
  AssetFiles, hex, hex_digit, split, is_fresh, etag, etag_header, cache, serve_asset,
}

no_comma : ℕ → Bool
no_comma c = not (c == b',')

split_whole : (s : Text) → all no_comma s ≡ true → split b',' s ≡ s ∷ []
unfolding split all no_comma
split_whole [] h = refl
split_whole (c ∷ s) h =
    let e : (c == b',') ≡ false = ground arith in rw (e, split_whole s (ground arith)) refl

split-append :
    (s t : Text)
    → (l : Text) × (ls : List Text) × (split b',' (s ++ (b',' ∷ t)) ≡ l ∷ (ls ++ split b',' t))
unfolding split
split-append [] t = ([], [], refl)
split-append (c ∷ s) t =
    let (l, ls, e) = split-append s t in
    elim (Bool-cases (c == b',')) [
      | inl h ↦ ([], l ∷ ls, rw (h, e) refl)
      | inr h ↦ (c ∷ l, ls, rw (h, e) refl)
    ]

hex_digit-no_comma : (d : ℕ) → d < 16 → no_comma (hex_digit d) ≡ true
unfolding no_comma
hex_digit-no_comma d h = ground arith

hex-no_comma : (n v : ℕ) → all no_comma (hex n v) ≡ true
unfolding hex all
hex-no_comma zero v = refl
hex-no_comma (suc n) v =
    all-append no_comma (hex n (v / 16)) (hex_digit (v % 16) ∷ [])
    ∙ rw (hex-no_comma n (v / 16), hex_digit-no_comma (v % 16) (omega arith)) refl

any-append_right :
    {A : Type 0} (p : A → Bool) (xs ys : List A) → any p ys ≡ true → any p (xs ++ ys) ≡ true
unfolding any
any-append_right p [] ys h = h
any-append_right p (x ∷ xs) ys h = ground (arith, any-append_right p xs ys h)

quote_last : (c : ℕ) (s : Text) → Ends is_whitespace (c ∷ (s ++ lit "\""))
unfolding is_whitespace
quote_last c [] = refl
quote_last c (d ∷ s) = quote_last d s

abbrev quoted : Text → Text
quoted s = b'"' ∷ (s ++ lit "\"")

trim-quoted : (s : Text) → trim (quoted s) ≡ quoted s
unfolding trim is_whitespace
trim-quoted s =
    ap (trim_end_matches is_whitespace) (trim_start_matches-same is_whitespace (quoted s) refl)
    ∙ trim_end_matches-same is_whitespace (quoted s) (quote_last b'"' s)

trim_space-quoted : (s : Text) → trim (b' ' ∷ quoted s) ≡ quoted s
unfolding trim trim_start_matches is_whitespace
trim_space-quoted s = trim-quoted s

module _ (files : AssetFiles) (body : Text) where
  etag-no_comma : all no_comma (etag files body) ≡ true
  unfolding etag all no_comma
  etag-no_comma =
      all-append no_comma (hex 16 (files.hash body)) (lit "\"")
      ∙ rw (hex-no_comma 16 (files.hash body)) refl

  space-no_comma : all no_comma (b' ' ∷ etag files body) ≡ true
  unfolding all no_comma
  space-no_comma = etag-no_comma

  is_tag : Text → Bool
  is_tag candidate = eq_text (trim candidate) (etag files body)

  etag-is_tag : is_tag (etag files body) ≡ true
  unfolding is_tag etag
  etag-is_tag =
      ap (λ t. eq_text t (quoted (hex 16 (files.hash body))))
        (trim-quoted (hex 16 (files.hash body)))
      ∙ eq_text_refl _

  space-is_tag : is_tag (b' ' ∷ etag files body) ≡ true
  unfolding is_tag etag
  space-is_tag =
      ap (λ t. eq_text t (quoted (hex 16 (files.hash body))))
        (trim_space-quoted (hex 16 (files.hash body)))
      ∙ eq_text_refl _

  alone : is_fresh (some (etag files body)) (etag files body) ≡ true
  unfolding is_fresh any is_tag
  alone = ap (any is_tag) (split_whole (etag files body) etag-no_comma) ∙ rw etag-is_tag refl

  space_found : any is_tag ((b' ' ∷ etag files body) ∷ []) ≡ true
  unfolding any
  space_found = rw space-is_tag refl

  among :
      (others : Text)
      → is_fresh (some (others ++ (b',' ∷ b' ' ∷ etag files body))) (etag files body) ≡ true
  unfolding is_fresh is_tag
  among others =
      let (l, ls, e) = split-append others (b' ' ∷ etag files body) in
      ap (any is_tag) (e ∙ ap (λ ts. l ∷ (ls ++ ts)) (split_whole _ space-no_comma))
      ∙ any-append_right is_tag (l ∷ ls) ((b' ' ∷ etag files body) ∷ []) space_found

  -- Where the client sends back the tag of the asset, alone or after other tags, the answer is 304
  -- without a body, with the tag again.
  pub serve_asset-fresh :
      (content_type others : Text)
      → (serve_asset files (some (etag files body)) body content_type (etag files body)
          ≡ asset 304
              ((lit "cache-control", cache) ∷ etag_header (files.header_value (etag files body)))
              [])
        × (serve_asset files
              (some (others ++ (b',' ∷ b' ' ∷ etag files body)))
              body
              content_type
              (etag files body)
            ≡ asset 304
                ((lit "cache-control", cache) ∷ etag_header (files.header_value (etag files body)))
                [])
  unfolding serve_asset
  serve_asset-fresh content_type others = (rw alone refl, rw (among others) refl)

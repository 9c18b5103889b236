-- ===== src/Routes/Assets.antt =====
-- src/routes/assets.rs: the stylesheet and the script, with the tags of their contents. The hash and
-- the test of a header's value are third-party or unspecified: they are the parameter `AssetFiles`.
pub mod Fresh
use weiterleitung.Prelude.{
  ℕ, zero, suc, ◌+◌, ◌-◌, ◌/◌, ◌%◌, Bool, true, false, ltb, ◌==◌, if◌then◌else◌, any, List, [], ◌∷◌,
  ◌++◌, Option, none, some,
}
use weiterleitung.Text.{Text, lit, eq_text}
use weiterleitung.Text.Trim.{trim}
use weiterleitung.Text.Split.{cons_line}
use weiterleitung.WebTemplates.{Response, asset}

pub record AssetFiles : Type 0 where
  pub app_css : Text
  pub app_js : Text
  -- `DefaultHasher` on a text.
  pub hash : Text → ℕ
  -- `HeaderValue::from_str`.
  pub header_value : Text → Option Text

abbrev pub cache : Text
cache = lit "public, max-age=0, must-revalidate"

abbrev pub hex_digit : ℕ → ℕ
hex_digit d = if ltb d 10 then b'0' + d else b'a' + (d - 10)

-- `{:0nx}`, of a number below 16 ^ n.
unfoldable pub hex : ℕ → ℕ → Text
hex zero value = []
hex (suc n) value = hex n (value / 16) ++ (hex_digit (value % 16) ∷ [])

-- `str::split` at a character.
unfoldable pub split : ℕ → Text → List Text
split d [] = [] ∷ []
split d (c ∷ s) = let rest = split d s in if c == d then [] ∷ rest else cons_line c rest

unfoldable pub is_fresh : Option Text → Text → Bool
is_fresh none tag = false
is_fresh (some value) tag = any (λ candidate. eq_text (trim candidate) tag) (split b',' value)

abbrev pub etag_header : Option Text → List (Text × Text)
etag_header none = []
etag_header (some value) = (lit "etag", value) ∷ []

module _ (files : AssetFiles) where
  unfoldable pub etag : Text → Text
  etag body = lit "\"" ++ (hex 16 (files.hash body) ++ lit "\"")

  -- `if_none_match` is the header of that name, where there is one that is text.
  unfoldable pub serve_asset : Option Text → Text → Text → Text → Response
  serve_asset if_none_match body content_type tag =
      let headers = (lit "cache-control", cache) ∷ etag_header (files.header_value tag) in
      if is_fresh if_none_match tag
      then asset 304 headers []
      else asset 200 (headers ++ ((lit "content-type", content_type) ∷ [])) body

  unfoldable pub serve_css : Option Text → Response
  serve_css if_none_match =
      serve_asset if_none_match files.app_css (lit "text/css; charset=utf-8") (etag files.app_css)

  unfoldable pub serve_js : Option Text → Response
  serve_js if_none_match =
      serve_asset if_none_match files.app_js (lit "text/javascript; charset=utf-8")
        (etag files.app_js)

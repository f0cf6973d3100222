-- ===== src/ClientAssets.antt =====
-- client.go: the assets that the middleware serves itself, and the Link header of predictions.
use cache_predict.Common.{Bool, ◌||◌, Option, none, some, List, [], ◌∷◌, ◌++◌, if◌then◌else◌}
use cache_predict.Common.Words.{Bytes}
use cache_predict.Common.Dict.{bytes_key}
use cache_predict.Common.Text.{codes, has_prefix, contains, split_once, join}
use cache_predict.Dense.Ops.{Prediction}
use cache_predict.Http
use cache_predict.Writer.{Client, send}

-- The embedded files, and precog.wasm where the first request for it could read it. `not_found` is
-- http.NotFound.
pub record Assets : Type 0 where
  pub client_script : Bytes
  pub wasm_exec_script : Bytes
  pub wasm : Option Bytes
  pub not_found : Client → Client

serve_file : Bytes → Bytes → Bytes → Client → Client
serve_file content_type cache_control body w = send body (record w {
  header =
      Http.set (Http.set w.header (codes "Content-Type") content_type) (codes "Cache-Control")
        cache_control;
})

-- ServeClientAssets: `none` where the path is none of the assets'.
unfoldable pub serve_client_assets : Assets → Bytes → Client → Option Client
unfolding serve_file
serve_client_assets assets path w =
    if bytes_key.same path (codes "/precog/precog.js")
    then some (
        serve_file (codes "application/javascript; charset=utf-8") (codes "public, max-age=3600")
          assets.client_script w)
    else if bytes_key.same path (codes "/precog/wasm_exec.js")
    then some (
        serve_file (codes "application/javascript; charset=utf-8") (codes "public, max-age=3600")
          assets.wasm_exec_script w)
    else if bytes_key.same path (codes "/precog/precog.wasm")
    then some (elim assets.wasm [
      | none ↦ assets.not_found w
      | some body ↦ serve_file (codes "application/wasm") (codes "public, max-age=86400") body w
    ])
    else none

-- The part of a call behind its first space, or the whole call without one.
unfoldable pub call_url : Bytes → Bytes
call_url call = elim (split_once b' ' call) [ none ↦ call | some (method, url) ↦ url ]

-- A route placeholder that no value was put in for.
unfoldable pub is_unhydrated : Bytes → Bool
is_unhydrated url =
    contains url (codes ":id") || contains url (codes ":uuid") || contains url (codes ":hex")

unfoldable pub link_parts : List Prediction → List Bytes
link_parts [] = []
link_parts (p ∷ predictions) =
    let rest = link_parts predictions in
    let url = call_url p.call in
    if is_unhydrated url
    then rest
    else if has_prefix url (codes "/")
    then (codes "<" ++ (url ++ codes ">; rel=prefetch")) ∷ rest
    else rest

-- BuildSpeculationRulesHeader
unfoldable pub build_speculation_rules_header : List Prediction → Bytes
build_speculation_rules_header predictions = join (link_parts predictions) (codes ", ")

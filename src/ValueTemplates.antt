-- ===== src/ValueTemplates.antt =====
-- The templates of patch values (util/template.go): `.#0` and its like become indices into the key
-- parts of a select expression. The regular expression is written out as a scan.
pub mod Safe
pub mod Render
use Prim.Native.Char.{Char, code}
use kubemod.Prelude.{String, List, [], ◌∷◌, eqb, if◌then◌else◌}
use kubemod.Prelude.Dict.{Dict, remove}
use kubemod.Prelude.Decimal.{is_digit}
use kubemod.Prelude.Text.{concat}
use kubemod.Paths.{push}

-- The state of a match of `\.#(\d+)`.
pub data DotScan : Type 0 where
  no_dot dot dot_hash : DotScan
  index_of : String → DotScan

dot_start : Char → DotScan
dot_start c = if eqb (code c) b'.' then dot else no_dot

dot_next : DotScan → Char → DotScan
unfolding dot_start
dot_next no_dot c = dot_start c
dot_next dot c = if eqb (code c) b'#' then dot_hash else dot_start c
dot_next dot_hash c = if is_digit c then index_of (push "" c) else dot_start c
dot_next (index_of d) c = if is_digit c then index_of (push d c) else dot_start c

abbrev unless_dot : Char → String
unless_dot c = if eqb (code c) b'.' then "" else push "" c

select_key_part : String → String
select_key_part d = concat "(index .SelectKeyParts " (concat d ")")

dot_emit : DotScan → Char → String
unfolding select_key_part
dot_emit no_dot c = unless_dot c
dot_emit dot c = if eqb (code c) b'#' then "" else concat "." (unless_dot c)
dot_emit dot_hash c = if is_digit c then "" else concat ".#" (unless_dot c)
dot_emit (index_of d) c = if is_digit c then "" else concat (select_key_part d) (unless_dot c)

dot_flush : DotScan → String
unfolding select_key_part
dot_flush no_dot = ""
dot_flush dot = "."
dot_flush dot_hash = ".#"
dot_flush (index_of d) = select_key_part d

pre_process : DotScan → String → String
unfolding dot_next dot_emit dot_flush
pre_process m String.[] = dot_flush m
pre_process m (String.◌∷◌ c s) = concat (dot_emit m c) (pre_process (dot_next m c) s)

-- `PreProcessModRuleGoTemplate` (util/template.go): `.#i` becomes an index into the key parts.
unfoldable pub pre_process_mod_rule_go_template : String → String
unfolding pre_process
pre_process_mod_rule_go_template = pre_process no_dot

-- The functions that the code takes away from the templates, `blockFuncs`.
abbrev pub block_funcs : List String
block_funcs = "env" ∷ "expandenv" ∷ []

remove_all {ℓ} : {F : Type ℓ} → List String → Dict F → Dict F
remove_all [] functions = functions
remove_all (name ∷ names) functions = remove_all names (remove name functions)

-- The functions of the template that `NewSafeTemplate` returns, from those of
-- `sprig.GenericFuncMap`.
unfoldable pub new_safe_template {ℓ} : {F : Type ℓ} → Dict F → Dict F
unfolding remove_all
new_safe_template functions = remove_all block_funcs functions

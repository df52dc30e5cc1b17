-- ===== src/Acl/Config.antt =====
-- plugins/auth/authfile/aclconfig.go: the rules of a configuration file, one to a line.
pub mod Loaded
use hmq.Prelude.{
  ℕ, Bool, true, false, ◌&&◌, ◌||◌, not, Option, none, some, List, [], ◌∷◌, ◌++◌, Bytes, codes,
  Result, ok, err, ◌==◌, nat_eq, bytes_eq, if◌then◌else◌, is_empty,
}
use hmq.Go.{split, split_from, has_prefix, fields, fields_from, trim_space, replace, replace_skip}
use hmq.Acl.Check.{acl_pub, acl_sub, acl_pubsub, allow, deny, client_id, username, ip, AuthInfo}

pub data ConfigError : Type 0 where
  not_opened : ConfigError
  -- the line that is not understood
  format : Bytes → ConfigError

unfoldable pub is_comment_out : Bytes → Bool
unfolding has_prefix
is_comment_out line =
    has_prefix line (codes "#")
    || has_prefix line (codes ";")
    || has_prefix line (codes "//")
    || has_prefix line (codes "*")

-- The tests on the fields of a line, in the order of the source.
unfoldable pub prase_fields : Bytes → List Bytes → Result ConfigError AuthInfo
unfolding replace_skip split_from
prase_fields line (auth ∷ typ ∷ val ∷ pub_sub ∷ topic ∷ []) =
    if not (auth == allow) && not (auth == deny)
    then err (format line)
    else if not (typ == client_id) && not (typ == username) && not (typ == ip)
    then err (format line)
    else if not (pub_sub == acl_pub) && not (pub_sub == acl_sub) && not (pub_sub == acl_pubsub)
    then err (format line)
    else let topic_str = replace (replace topic (codes " ") []) (codes "\n") [] in
      ok (record {
        auth = auth;
        typ = typ;
        val = val;
        pub_sub = pub_sub;
        topics = split b',' topic_str;
      })
prase_fields line _ = err (format line)

-- The loop of Prase over the lines of the file. A comment is passed over, and the first line that
-- is blank or not understood ends it; after the last line a read gives a blank one.
unfoldable pub prase_lines : List AuthInfo → List Bytes → List AuthInfo × Option ConfigError
unfolding prase_fields is_comment_out trim_space fields_from
prase_lines infos [] = (infos, none)
prase_lines infos (l ∷ rest) =
    let line = trim_space l in
    let skipped = prase_lines infos rest in
    if is_comment_out line
    then skipped
    else if is_empty line
    then (infos, none)
    else elim (prase_fields line (fields line)) [
      | err e ↦ (infos, some e)
      | ok info ↦ prase_lines (infos ++ info ∷ []) rest
    ]

abbrev pub loaded : List AuthInfo × Option ConfigError → Result ConfigError (List AuthInfo)
loaded (infos, none) = ok infos
loaded (infos, some e) = err e

-- AclConfigLoad on the content of the file, `none` where it cannot be opened.
unfoldable pub acl_config_load : Option Bytes → Result ConfigError (List AuthInfo)
unfolding prase_lines
acl_config_load none = err not_opened
acl_config_load (some content) = loaded (prase_lines [] (split b'\n' content))

-- ===== src/Session/Posix.antt =====
-- The path functions of a POSIX system on texts, which the tests of src/session.ts run with.
use Prim.Native.Char.{code}
use Prim.Native.String.{◌++◌ as str_append}
use subagent.Common.{
  ℕ, zero, suc, String, Bool, true, false, ◌&&◌, ◌||◌, nat_eq, codes, if◌then◌else◌,
}
use subagent.Session.{Platform, is_prefix}

abbrev pub is_slash : ℕ → Bool
is_slash c = nat_eq c b'/'

abbrev pub has_slash : String → Bool
has_slash String.[] = false
has_slash (String.◌∷◌ c s) = is_slash (code c) || has_slash s

abbrev pub join : String → String → String
join d n = str_append d (String.◌∷◌ "/" n)

abbrev pub basename : String → String
basename String.[] = String.[]
basename (String.◌∷◌ c s) =
    let rest = basename s in
    if has_slash s then rest else if is_slash (code c) then s else String.◌∷◌ c s

abbrev pub dirname : String → String
dirname String.[] = String.[]
dirname (String.◌∷◌ c s) =
    let rest = dirname s in if has_slash s then String.◌∷◌ c rest else String.[]

abbrev pub begins : String → String → Bool
begins String.[] path = true
begins (String.◌∷◌ c s) String.[] = false
begins (String.◌∷◌ c s) (String.◌∷◌ d t) = nat_eq (code c) (code d) && begins s t

-- The second text without as many characters as the first one has.
abbrev pub without : String → String → String
without String.[] path = path
without (String.◌∷◌ c s) String.[] = String.[]
without (String.◌∷◌ c s) (String.◌∷◌ d t) = without s t

abbrev pub encode : String → String
encode String.[] = String.[]
encode (String.◌∷◌ c s) =
    let rest = encode s in
    if is_slash (code c)
    then String.◌∷◌ "%" (String.◌∷◌ "2" (String.◌∷◌ "F" rest))
    else String.◌∷◌ c rest

abbrev pub marks : ℕ → String
marks zero = String.[]
marks (suc n) = String.◌∷◌ "1" (marks n)

-- The hash of a text is the text, and sequence numbers are in unary.
abbrev pub posix : Platform
posix = record {
  sha256 = λ s. s;
  session_dir = "/s";
  join = join;
  dirname = dirname;
  basename = basename;
  relative = λ from path. without (str_append from "/") path;
  is_absolute = λ path. is_prefix (codes "/") (codes path);
  encode_uri_component = encode;
  is_under = λ path d. begins (str_append d "/") path;
  padded = marks;
}

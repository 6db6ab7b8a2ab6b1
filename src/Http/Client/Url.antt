-- ===== src/Http/Client/Url.antt =====
-- core/src/http/client/url.rs: the URL of a request.
use localsend_uyava.Prelude.{
  ℕ, ℕ-Eq, ◌==◌, ◌++◌, [], ◌∷◌, Bool, false, Text, ascii, if◌then◌else◌, ◌||◌,
}
use localsend_uyava.Server.IpGroup.{print}
use localsend_uyava.Http.Dto.{ProtocolType, as_str}

pub data ApiVersion : Type 0 where
  v2 v3 : ApiVersion

-- `port` is a u16.
pub record TargetUrl : Type 0 where
  pub version : ApiVersion
  pub protocol : ProtocolType
  pub host : Text
  pub port : ℕ
  pub path : Text

abbrev pub version_text : ApiVersion → Text
version_text v2 = ascii "v2"
version_text v3 = ascii "v3"

-- `str::contains` with a character
unfoldable pub contains : ℕ → Text → Bool
contains c [] = false
contains c (a ∷ s) = (a == c) || contains c s

-- An IPv6 address stands in brackets.
unfoldable pub bracketed : Text → Text
unfolding contains
bracketed host = if contains b':' host then b'[' ∷ (host ++ b']' ∷ []) else host

-- The decimal number of a u16.
abbrev pub port_text : ℕ → Text
port_text port = print 10 5 port

unfoldable pub to_string : TargetUrl → Text
unfolding as_str bracketed
to_string url =
    as_str url.protocol
    ++ (ascii "://"
        ++ (bracketed url.host
            ++ (ascii ":"
                ++ (port_text url.port
                    ++ (ascii "/api/localsend/" ++ (version_text url.version ++ url.path))))))

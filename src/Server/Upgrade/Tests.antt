-- ===== src/Server/Upgrade/Tests.antt =====
-- A client that claims an address in front of its own.
use localsend_uyava.Prelude.{◌≡◌, refl, [], none, some, ascii, Result, length}
use localsend_uyava.Model.Format.{Format, both, option, device, text, via, codec}
use localsend_uyava.Signaling.{ClientInfoWithoutId}
use localsend_uyava.Server.IpGroup.{v4}
use localsend_uyava.Server.Upgrade.{Web, ws_handler}
use localsend_uyava.Server.Upgrade.Forwarded.{ws_handler-forwarded}

abbrev pub info : ClientInfoWithoutId
info = record {
  alias = ascii "peer";
  version = ascii "2.3";
  device_model = none;
  device_type = none;
  token = [];
}

abbrev pub client_info : Format ClientInfoWithoutId
client_info =
    via (both text (both text (both (option text) (both device text))))
      (λ i. (i.alias, (i.version, (i.device_model, (i.device_type, i.token)))))
      (λ (a, (v, (m, (d, t)))). record {
        alias = a;
        version = v;
        device_model = m;
        device_type = d;
        token = t;
      })
      λ i. refl

-- An address is read as one that shows the length of its text.
abbrev pub web : Web
web = record {
  decode = λ t. Result.ok t;
  from_utf8 = λ b. some b;
  info = codec client_info;
  to_str = λ b. some b;
  trim = λ t. t;
  parse_ip = λ t. some (v4 10 0 0 (length t));
}

ws_handler-forwarded_example :
    ws_handler web [] 7 (some (ascii "1.2.3.4,10.0.0.9")) (v4 10 0 0 1)
    ≡ ws_handler web [] 7 (some (ascii "10.0.0.9")) (v4 10 0 0 1)
ws_handler-forwarded_example =
    ws_handler-forwarded web [] 7 (ascii "1.2.3.4,10.0.0.9") (ascii "10.0.0.9") (ascii "1.2.3.4")
      (ascii "10.0.0.9") (v4 10 0 0 1) refl refl

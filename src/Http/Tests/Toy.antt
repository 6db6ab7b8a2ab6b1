-- ===== src/Http/Tests/Toy.antt =====
-- A toy instance of serde_json at the types of the HTTP protocol.
use localsend_uyava.Prelude.{ℕ, zero, ◌≡◌, refl}
use localsend_uyava.Model.Format.{
  Format, number, both, list, via, option, bool, codec, text, file, device,
}
use localsend_uyava.Http.Dto.{ProtocolType, http, https, RegisterDto, RegisterResponseDto, Json}

abbrev put_protocol : ProtocolType → ℕ
put_protocol http = 0
put_protocol https = 1

abbrev parse_protocol : ℕ → ProtocolType
parse_protocol zero = http
parse_protocol _ = https

pub protocol_lem : (p : ProtocolType) → parse_protocol (put_protocol p) ≡ p
protocol_lem http = refl
protocol_lem https = refl

abbrev protocol : Format ProtocolType
protocol = via number put_protocol parse_protocol protocol_lem

abbrev register : Format RegisterDto
register =
    via
      (both text (
        both text
          (both (option text) (both device (both text (both number (both protocol bool)))))))
      (λ r. (
        r.alias,
        (
          r.version,
          (r.device_model, (r.device_type, (r.token, (r.port, (r.protocol, r.has_web_interface))))),
        ),
      ))
      (λ (a, (v, (m, (d, (t, (n, (p, w))))))). record {
        alias = a;
        version = v;
        device_model = m;
        device_type = d;
        token = t;
        port = n;
        protocol = p;
        has_web_interface = w;
      })
      λ r. refl

abbrev register_response : Format RegisterResponseDto
register_response =
    via (both text (both text (both (option text) (both device (both text bool)))))
      (λ r.
        (r.alias, (r.version, (r.device_model, (r.device_type, (r.token, r.has_web_interface))))))
      (λ (a, (v, (m, (d, (t, w))))). record {
        alias = a;
        version = v;
        device_model = m;
        device_type = d;
        token = t;
        has_web_interface = w;
      })
      λ r. refl

abbrev pub toy : Json
toy = record {
  nonce_request = codec (via text (λ m. m.nonce) (λ t. record { nonce = t }) λ m. refl);
  nonce_response = codec (via text (λ m. m.nonce) (λ t. record { nonce = t }) λ m. refl);
  error_response = codec (via text (λ m. m.message) (λ t. record { message = t }) λ m. refl);
  register = codec register;
  register_response = codec register_response;
  prepare_upload = codec (
      via (both register (list (both text file))) (λ r. (r.info, r.files))
        (λ (i, f). record { info = i; files = f }) λ r. refl);
  prepare_upload_response = codec (
      via (both text (list (both text text))) (λ r. (r.session_id, r.files))
        (λ (i, f). record { session_id = i; files = f }) λ r. refl);
}

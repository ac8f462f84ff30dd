-- ===== src/Tls.antt =====
-- src/tls.rs: the choice between no TLS, TLS and mutual TLS. Reading the files and building the server's
-- configuration are calls of other packages.
use xfiles.Prelude.{◌⊎◌, inl, inr, Option, none, some, if◌then◌else◌, Text, codes}
use xfiles.Config.{TlsConfig as TlsAppConfig}

pub record TlsConfig : Type 0 where
  pub cert_path : Text
  pub key_path : Text
  pub client_ca_path : Option Text

abbrev pub no_cert : Text
no_cert = codes "tls.enabled=true but cert_path is missing"

abbrev pub no_key : Text
no_key = codes "tls.enabled=true but key_path is missing"

-- An error's text, or nothing where TLS is not enabled.
unfoldable pub to_tls_config : TlsAppConfig → Text ⊎ Option TlsConfig
to_tls_config c =
    let paths : Text ⊎ Option TlsConfig = elim c.cert_path [
      | none ↦ inl no_cert
      | some cert ↦ elim c.key_path [
        | none ↦ inl no_key
        | some key ↦
            inr (
              some (record { cert_path = cert; key_path = key; client_ca_path = c.client_ca_path }))
      ]
    ] in
    if c.enabled then paths else inr none

-- ===== src/Controller/Secrets/Reads.antt =====
-- Which Secrets `resolveHeaderValues` reads.
use mackerel_operator.Prelude.{Option, none, some, List, [], ◌∷◌, Text, All, nat_eq, list_eq}
use mackerel_operator.Api.{HeaderField, HeaderValueSource, SecretKeySelector}
use mackerel_operator.Program
use mackerel_operator.Program.{Call, Program, KubeReply, got, refused}
use mackerel_operator.Program.Runs.{Ensures}
use mackerel_operator.Controller.Settings.{Result}
use mackerel_operator.Controller.Secrets.{
  Values, lookup, with_value, with_secret, secret_answered, resolve_ref, resolve_source,
  resolve_loop,
}

module _ {F : Type 0} (allowed : Call F → Type 0) where
  module _ (namespace : Text) where
    -- The Secret that a header refers to, if it refers to one, may be read.
    abbrev pub ReadableRef : Option SecretKeySelector → Type 0
    ReadableRef none = Unit {0}
    ReadableRef (some ref) = allowed (Program.get_secret namespace ref.name)

    abbrev pub ReadableSource : Option HeaderValueSource → Type 0
    ReadableSource none = Unit {0}
    ReadableSource (some source) = ReadableRef source.secret_key_ref

    abbrev pub Readable : HeaderField → Type 0
    Readable header = ReadableSource header.value_from

  abbrev Reads : {A : Type 0} → Program F A → Type 0
  Reads = Ensures allowed (λ _. Unit {0})

  module _ (namespace : Text) (next : Values → List (Text × Values) → Program F (Result Values))
      (rest : (values : Values) (read : List (Text × Values)) → Reads (next values read)) where
    value-Reads :
        (header : Text) (ref : SecretKeySelector) (v : Option Text) (values : Values)
        (read : List (Text × Values))
        → Reads (with_value namespace header ref v values (λ values'. next values' read))
    unfolding with_value
    value-Reads header ref none values read = tt
    value-Reads header ref (some v) values read = rest ((header, v) ∷ values) read

    ref-Reads :
        (header : Text) (o : Option SecretKeySelector) (values : Values)
        (read : List (Text × Values))
        → ReadableRef namespace o
        → Reads (resolve_ref namespace header o values read next)
    unfolding resolve_ref
    ref-Reads header none values read h = tt
    ref-Reads header (some ref) values read h = looked_up (lookup ref.name read)
      where
        body : Values → List (Text × Values) → Program F (Result Values)
        body secret read =
            with_value namespace header ref (lookup ref.key secret) values
              (λ values'. next values' read)

        looked_up : (o : Option Values) → Reads (with_secret namespace header ref read body o)
        looked_up none = (h, answered)
          where
            answered :
                (r : KubeReply Values) → Reads (secret_answered namespace header ref read body r)
            answered (refused e) = tt
            answered (got secret) =
                value-Reads header ref (lookup ref.key secret) values ((ref.name, secret) ∷ read)
        looked_up (some secret) = value-Reads header ref (lookup ref.key secret) values read

    source-Reads :
        (header : Text) (o : Option HeaderValueSource) (values : Values)
        (read : List (Text × Values))
        → ReadableSource namespace o
        → Reads (resolve_source namespace header o values read next)
    unfolding resolve_source
    source-Reads header none values read h = rest values read
    source-Reads header (some source) values read h =
        ref-Reads header source.secret_key_ref values read h

  pub resolve_loop-Reads :
      (namespace : Text) (headers : List HeaderField) (values : Values)
      (read : List (Text × Values))
      → All (Readable namespace) headers
      → Reads (resolve_loop {F = F} namespace headers values read)
  unfolding resolve_loop
  resolve_loop-Reads namespace [] values read h = tt
  resolve_loop-Reads namespace (header ∷ headers) values read (h, hs) =
      source-Reads namespace (resolve_loop namespace headers)
        (λ values' read'. resolve_loop-Reads namespace headers values' read' hs) header.name
        header.value_from values read h

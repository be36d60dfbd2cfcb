-- ===== src/Tests/Copying.antt =====
-- The theorem on copies at a concrete resource in memory.
use mackerel_operator.Prelude.{
  ℕ, ◌<◌, refl, false, true, Option, none, some, [], ◌∷◌, Text, codes, nat_beq, if◌then◌else◌,
  arith,
}
use mackerel_operator.Prelude.Int.{pos}
use mackerel_operator.DeepCopy.Cells.{
  Cell, unused, int_cell, text_cell, selector_cell, source_cell, fields_cell, slice_cell, Memory,
  Stands,
}
use mackerel_operator.DeepCopy.Values.{HoldsFlat, ObjectMetaCopy, MonitorValue, HoldsMonitor}
use mackerel_operator.DeepCopy.Kept.{HoldsFlat-Same}
use mackerel_operator.DeepCopy.{TypeMeta, MonitorAt, copy_cell, copy_monitor}
use mackerel_operator.DeepCopy.Parts.{flat-Copies}
use mackerel_operator.DeepCopy.Independent.{IsIndependent, copy_monitor-IsIndependent}
use mackerel_operator.DeepCopy.Items.{Arrays, ListAt, copy_list}
use mackerel_operator.DeepCopy.ItemsIndependent.{
  ListValue, HoldsList, IsListIndependent, copy_list-IsListIndependent,
}
use mackerel_operator.Tests.Samples.{shop_spec, empty_status, token_header}

-- Metadata that is one text behind a pointer.
abbrev labels_copy : ObjectMetaCopy
labels_copy = record {
  Meta = Option ℕ;
  Value = Option Text;
  holds = λ lo m o v. HoldsFlat text_cell lo m o v;
  copy = λ m o. copy_cell m o;
  holds-Same = λ a v l same h. HoldsFlat-Same l same text_cell a v h;
  copy-holds =
      λ lo m a v l h. let made = flat-Copies lo text_cell m a v l h in (made.same, made.copied);
}

-- The metadata at 0, the interval at 1, and the headers at 2: the slice, its array at 3, the source of
-- the one header at 4 and its selector at 5.
abbrev sample_cell : ℕ → Cell
sample_cell p =
    if nat_beq p 0
    then text_cell (codes "shop")
    else if nat_beq p 1
    then int_cell (pos 10)
    else if nat_beq p 2
    then slice_cell (some 3)
    else if nat_beq p 3
    then fields_cell
        (record { name = codes "Authorization"; value = none; value_from = some 4 } ∷ [])
    else if nat_beq p 4
    then source_cell (record { secret_key_ref = some 5 })
    else if nat_beq p 5
    then selector_cell (record { name = codes "tokens"; key = codes "shop" })
    else unused

abbrev sample_memory : Memory
sample_memory = record { next = 6; cell = sample_cell }

-- What the API server says of the types.
abbrev shop_type : TypeMeta
shop_type = record {
  kind = codes "ExternalMonitor";
  api_version = codes "mackerel.starry.blue/v1alpha1";
}

abbrev list_type : TypeMeta
list_type = record shop_type { kind = codes "ExternalMonitorList" }

abbrev shop_at : MonitorAt (Option ℕ)
shop_at = record {
  type_meta = shop_type;
  metadata = some 0;
  spec = record {
    name = [];
    service = codes "front";
    url = codes "https://shop.example/health";
    method = [];
    notification_interval = some 1;
    expected_status_code = none;
    contains_string = [];
    response_time_duration = none;
    response_time_warning = none;
    response_time_critical = none;
    certification_expiration_warning = none;
    certification_expiration_critical = none;
    is_mute = false;
    follow_redirect = true;
    skip_certificate_verification = false;
    max_check_attempts = pos 1;
    request_body = [];
    dualstack = [];
    headers = some 2;
    memo = [];
  };
  status = record {
    monitor_id = [];
    observed_generation = pos 0;
    last_synced_at = none;
    last_applied_hash = [];
    url = [];
    mackerel_monitor_name = [];
    conditions = none;
  };
}

abbrev shop_value : MonitorValue (Option Text)
shop_value = record {
  type_meta = shop_type;
  metadata = some (codes "shop");
  spec = record shop_spec {
    notification_interval = some (pos 10);
    headers = some (token_header ∷ []);
  };
  status = empty_status;
}

stands : {p : ℕ} → p < 6 → Stands 0 sample_memory p (sample_cell p)
stands h = record { low = omega arith; allocated = h; there = refl }

shop_stands : HoldsMonitor labels_copy 0 sample_memory shop_at shop_value
shop_stands = record {
  type_meta = refl;
  metadata = stands (omega arith);
  spec = record {
    name = refl;
    service = refl;
    url = refl;
    method = refl;
    notification_interval = stands (omega arith);
    expected_status_code = tt;
    contains_string = refl;
    response_time_duration = tt;
    response_time_warning = tt;
    response_time_critical = tt;
    certification_warning = tt;
    certification_critical = tt;
    is_mute = refl;
    follow_redirect = refl;
    skip_certificate_verification = refl;
    max_check_attempts = refl;
    request_body = refl;
    dualstack = refl;
    headers = (
      some 3,
      stands (omega arith),
      (_, stands (omega arith), ((refl, tt, (_, stands (omega arith), stands (omega arith))), tt)),
    );
    memo = refl;
  };
  status = record {
    monitor_id = refl;
    observed_generation = refl;
    last_synced_at = tt;
    last_applied_hash = refl;
    url = refl;
    mackerel_monitor_name = refl;
    conditions = refl;
  };
}

copy_monitor-IsIndependent_example :
    IsIndependent
      (λ lo m x. HoldsMonitor labels_copy lo m x shop_value)
      sample_memory
      shop_at
      (copy_monitor labels_copy.copy sample_memory shop_at)
copy_monitor-IsIndependent_example =
    copy_monitor-IsIndependent labels_copy sample_memory shop_at shop_value shop_stands

-- An array of the one resource.
abbrev sample_arrays : Arrays (Option ℕ)
sample_arrays = record { next = 1; cell = λ p. shop_at ∷ [] }

abbrev shops_at : ListAt (Option ℕ)
shops_at = record { type_meta = list_type; metadata = none; items = some 0 }

abbrev shops_value : ListValue (Option Text) (Option Text)
shops_value = record { type_meta = list_type; metadata = none; items = shop_value ∷ [] }

shops_stand : HoldsList labels_copy labels_copy 0 sample_memory 0 sample_arrays shops_at shops_value
shops_stand = record {
  type_meta = refl;
  metadata = tt;
  items = (
    shop_at ∷ [],
    record { low = omega arith; allocated = omega arith; there = refl },
    (shop_stands, tt),
  );
}

copy_list-IsListIndependent_example :
    IsListIndependent labels_copy labels_copy sample_memory sample_arrays shops_at shops_value
      (copy_list labels_copy.copy labels_copy.copy sample_memory sample_arrays shops_at)
copy_list-IsListIndependent_example =
    copy_list-IsListIndependent labels_copy labels_copy sample_memory sample_arrays shops_at
      shops_value shops_stand

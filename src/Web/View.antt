-- ===== src/Web/View.antt =====
-- internal/web/view.go: the dashboard's view of a snapshot.
pub mod Laws
use homewizard_exporter.Prelude.{
  ℕ, ◌+◌, String, Bool, true, false, not, ◌&&◌, Option, none, some, List, [], ◌∷◌, ◌++◌, map,
  str_eq, ltb, ◌==◌, if◌then◌else◌,
}
use homewizard_exporter.Prelude.Int.{pos}
use homewizard_exporter.Time.{Time, Duration, is_zero, after, sub, truncate}
use homewizard_exporter.Config.{ApiVersion}
use homewizard_exporter.Homewizard.Models.{Phases, External, product_p1}
use homewizard_exporter.Homewizard.Timestamps.{Platform}
use homewizard_exporter.Snapshot.{Device, is_fresh, last_update, sorted}
use homewizard_exporter.Snapshot.Store.{Store}

-- The status of a device. A stale one is shown with its age, to the second.
pub data DeviceStatus : Type 0 where
  never_reported : DeviceStatus
  stale : Duration → DeviceStatus
  reporting : DeviceStatus

-- The status of the household.
pub data Status : Type 0 where
  waiting : Status
  no_fresh : Status
  some_missing : Status
  all_fine : Status

pub record Phase (F : Type 0) : Type 0 where
  pub name : String
  pub watts : F

pub record ExternalView (F : Type 0) : Type 0 where
  pub type : String
  pub value : F
  pub unit : String

pub record DeviceView (F : Type 0) : Type 0 where
  pub name : String
  pub host : String
  pub product : String
  pub type : String
  pub serial : String
  pub firmware : String
  pub api : ApiVersion
  pub up : Bool
  pub status : DeviceStatus
  pub updated_at : Time
  pub watts : Option F
  pub phases : List (Phase F)
  pub import_kw : Option F
  pub export_kw : Option F
  pub water_lpm : Option F
  pub water_total : Option F
  pub battery_pct : Option F
  pub socket_on : Option Bool
  pub external : List (ExternalView F)
  pub wifi_ssid : String

pub record Totals (F : Type 0) : Type 0 where
  pub devices : ℕ
  pub online : ℕ
  pub watts : F
  pub water_lpm : F
  pub has_water : Bool

pub record View (F : Type 0) : Type 0 where
  pub up : Bool
  pub status : Status
  pub updated_at : Time
  pub totals : Totals F
  pub devices : List (DeviceView F)

abbrev ssid_of : String → Option String → String
ssid_of ssid none = ssid
ssid_of ssid (some reported) = if str_eq ssid "" then reported else ssid

module _ {F : Type 0} where
  -- `productName`
  unfoldable pub product_name : Device F → String
  product_name d =
      if not (str_eq d.info.product_name "")
      then d.info.product_name
      else if not (str_eq d.info.product_type "")
      then d.info.product_type
      else "unknown device"

  abbrev phase : String → Option F → List (Phase F) → List (Phase F)
  phase name none rest = rest
  phase name (some watts) rest = record { name = name; watts = watts } ∷ rest

  abbrev phases_of : Phases F → List (Phase F)
  phases_of p = phase "L1" p.l1 (phase "L2" p.l2 (phase "L3" p.l3 []))

  abbrev external_of : External F → ExternalView F
  external_of e = record { type = e.type; value = e.value; unit = e.unit }

  unfoldable pub device_status : Device F → Duration → Time → DeviceStatus
  device_status d stale_after now =
      let last = last_update d in
      if is_zero last
      then never_reported
      else if not (is_fresh d now stale_after)
      then stale (truncate (sub now last))
      else reporting

  -- `describe`
  unfoldable pub describe : Device F → Duration → Time → DeviceView F
  describe d stale_after now =
      let m = d.measurement in
      record {
        name = d.name;
        host = d.host;
        product = product_name d;
        type = d.info.product_type;
        serial = d.info.serial;
        firmware = d.info.firmware_version;
        api = d.api_version;
        up = is_fresh d now stale_after;
        status = device_status d stale_after now;
        updated_at = last_update d;
        watts = m.power_w;
        phases = phases_of m.power_phase_w;
        import_kw = m.energy_import_kwh;
        export_kw = m.energy_export_kwh;
        water_lpm = m.active_water_lpm;
        water_total = m.total_water_m3;
        battery_pct = m.state_of_charge_pct;
        socket_on = d.state.power_on;
        external = map external_of m.external;
        wifi_ssid = ssid_of m.wifi_ssid d.system.wifi_ssid;
      }

module _ (P : Platform) where
  abbrev no_totals : Totals P.F
  no_totals = record {
    devices = 0;
    online = 0;
    watts = P.of_int (pos 0);
    water_lpm = P.of_int (pos 0);
    has_water = false;
  }

  abbrev pub no_view : View P.F
  no_view = record {
    up = false;
    status = waiting;
    updated_at = 0;
    totals = no_totals;
    devices = [];
  }

  abbrev add_watts : Bool → Option P.F → P.F → P.F
  add_watts true (some w) total = P.add total w
  add_watts counted w total = total

  abbrev add_water : Bool → Option P.F → Totals P.F → Totals P.F
  add_water true (some w) t = record t { water_lpm = P.add t.water_lpm w; has_water = true }
  add_water up w t = t

  -- What one device adds to the totals.
  unfoldable pub count : Device P.F → DeviceView P.F → Totals P.F → Totals P.F
  count d item t = add_water item.up item.water_lpm (record t {
    devices = t.devices + 1;
    online = if item.up then t.online + 1 else t.online;
    watts = add_watts (item.up && str_eq d.info.product_type product_p1) item.watts t.watts;
  })

  abbrev pub add_device : Duration → Time → Device P.F → View P.F → View P.F
  add_device stale_after now d v =
      let item = describe d stale_after now in
      let last = last_update d in
      record v {
        devices = v.devices ++ item ∷ [];
        totals = count d item v.totals;
        updated_at = if after last v.updated_at then last else v.updated_at;
      }

  -- The loop of `buildView`.
  unfoldable pub gather : Duration → Time → List (Device P.F) → View P.F → View P.F
  gather stale_after now [] v = v
  gather stale_after now (d ∷ ds) v = gather stale_after now ds (add_device stale_after now d v)

  -- The switch behind the loop.
  unfoldable pub judge : View P.F → View P.F
  judge v =
      if is_zero v.updated_at
      then record v { status = waiting }
      else if v.totals.online == 0
      then record v { status = no_fresh }
      else if ltb v.totals.online v.totals.devices
      then record v { up = true; status = some_missing }
      else record v { up = true; status = all_fine }

  -- `buildView`
  unfoldable pub build_view : Store P.F → Duration → Time → View P.F
  build_view none stale_after now = no_view
  build_view (some s) stale_after now = judge (gather stale_after now (sorted (some s)) no_view)

-- ===== src/Structs/Examples.antt =====
-- A header in the words of a hold table.
use acq400_xrm.Prelude.{◌≡◌, arith}
use acq400_xrm.Prelude.Int.{pos, negsuc}
use acq400_xrm.Structs.{SoeHoldHeader, load_header, store_header}
use acq400_xrm.Structs.Layout.{load_header-store_header}

abbrev header : SoeHoldHeader
header = record {
  lut_row = record { event = 5; pad = 0; pv_id = 100; offset_us = negsuc 199 };
  client_data = 3;
  timestamp = pos 1_700_000_000_000_000;
  data_offset = 24;
  ss_u32 = 8;
  ai_count = 4;
  di_count = 2;
  sp_count = 4;
  unused = 0;
}

header_read_back : load_header (store_header (λ j. j) 2 header) 2 ≡ header
header_read_back =
    load_header-store_header (λ j. j) 2 header
      (record {
        event_fits = omega arith;
        pad_fits = omega arith;
        pv_id_fits = omega arith;
        offset_fits = (omega arith, omega arith);
        client_data_fits = omega arith;
        timestamp_fits = (omega arith, omega arith);
        data_offset_fits = omega arith;
        ss_u32_fits = omega arith;
        ai_count_fits = omega arith;
        di_count_fits = omega arith;
        sp_count_fits = omega arith;
      })

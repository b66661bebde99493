-- ===== src/Config.antt =====
-- The constants of src/stream_web/config.py, src/stream_web/app.py and src/stream_web/timing.py
-- that the modelled code computes with. Products of a float and the sample rate that the source
-- passes to `int` are written as the integers that they give. What config takes from
-- hubble_satnet_decoder is a parameter of the modules that use it.
use sdr_docker.Base.{ℕ, ◌/◌}

abbrev pub sample_rate : ℕ
sample_rate = 781_250

-- int(2.0 * sample_rate), int(1.5 * sample_rate), int(0.5 * sample_rate), int(0.6 * sample_rate)
abbrev pub iq_buffer_size : ℕ
iq_buffer_size = 1_562_500

abbrev pub decode_samples : ℕ
decode_samples = 1_171_875

abbrev pub spec_chunk_samples : ℕ
spec_chunk_samples = 390_625

abbrev pub decode_interval_samples : ℕ
decode_interval_samples = 468_750

-- int(0.75 * sample_rate), its tenth, and int(0.01 * sample_rate)
abbrev pub td_samples : ℕ
td_samples = 585_937

abbrev pub td_pre_roll : ℕ
td_pre_roll = 58_593

abbrev pub truncation_match_samples : ℕ
truncation_match_samples = 7_812

abbrev pub center_freq_hz : ℕ
center_freq_hz = 2_482_440_375

abbrev pub rx_initial_gain_db : ℕ
rx_initial_gain_db = 20

abbrev pub rx_gain_min_db : ℕ
rx_gain_min_db = 0

abbrev pub rx_gain_step_db : ℕ
rx_gain_step_db = 2

abbrev pub max_spec_chunks : ℕ
max_spec_chunks = 20

abbrev pub spectrum_avg_chunks : ℕ
spectrum_avg_chunks = max_spec_chunks / 2

abbrev pub spec_dc_notch_bins : ℕ
spec_dc_notch_bins = 10

abbrev pub max_decode_history : ℕ
max_decode_history = 200

abbrev pub packet_feed_max : ℕ
packet_feed_max = 1000

abbrev pub sdr_retry_interval_s : ℕ
sdr_retry_interval_s = 3

abbrev pub open_attempts_before_restart : ℕ
open_attempts_before_restart = 10

abbrev pub worker_max_restarts : ℕ
worker_max_restarts = 5

abbrev pub capture_default_seconds : ℕ
capture_default_seconds = 10

abbrev pub capture_max_seconds : ℕ
capture_max_seconds = 30

-- int(spectrum_avg_chunks * 0.5)
abbrev pub fcc_check_default_seconds : ℕ
fcc_check_default_seconds = 5

abbrev pub hitl_queue_max : ℕ
hitl_queue_max = 1000

-- int(2e-3 * sample_rate) and int(0.1e-3 * sample_rate), in render_td_plot
abbrev pub td_min_symbol : ℕ
td_min_symbol = 1562

abbrev pub td_min_gap : ℕ
td_min_gap = 78

abbrev pub tx_max_upload_bytes : ℕ
tx_max_upload_bytes = 1_073_741_824

abbrev pub spec_img_width : ℕ
spec_img_width = 1200

abbrev pub spec_img_height : ℕ
spec_img_height = 200

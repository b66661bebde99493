-- ===== src/Workers/Startup.antt =====
-- The start of the program: `main` of src/stream_web/app.py as the steps that it takes one after
-- another, and what it hands to the worker processes. What a handle of `SharedState` holds is left out.
use sdr_docker.Base.{◌≡◌, refl, Bool, true, false, List, [], ◌∷◌, ◌++◌, map, if◌then◌else◌}

pub data Handle : Type 0 where
  iq_shm_name buf_write_idx rx_peak_frac rx_overflows rx_gain_db : Handle
  td_running td_target_ntw_id td_has_ntw_id td_chipset_arr td_zoom_n_syms : Handle
  view_mode lo_freq_hz running : Handle
  drop_queue result_queue td_job_queue spectrum_job_queue : Handle

pub data WorkerName : Type 0 where
  processor td_renderer spectrum_renderer : WorkerName

-- The arguments in the spawn closures.
pub args_of : WorkerName → List Handle
args_of processor =
    iq_shm_name ∷ buf_write_idx ∷ rx_peak_frac ∷ rx_overflows ∷ rx_gain_db ∷ td_running
    ∷ td_target_ntw_id ∷ td_has_ntw_id ∷ td_chipset_arr ∷ td_zoom_n_syms ∷ view_mode ∷ lo_freq_hz
    ∷ running ∷ drop_queue ∷ result_queue ∷ td_job_queue ∷ spectrum_job_queue ∷ []
args_of td_renderer = td_job_queue ∷ result_queue ∷ running ∷ []
args_of spectrum_renderer = spectrum_job_queue ∷ result_queue ∷ running ∷ []

-- The parameters of `processor_main`, each by the handle that it is named for.
pub processor_parameters : List Handle
processor_parameters =
    iq_shm_name ∷ buf_write_idx ∷ rx_peak_frac ∷ rx_overflows ∷ rx_gain_db ∷ td_running
    ∷ td_target_ntw_id ∷ td_has_ntw_id ∷ td_chipset_arr ∷ td_zoom_n_syms ∷ view_mode ∷ lo_freq_hz
    ∷ running ∷ drop_queue ∷ result_queue ∷ td_job_queue ∷ spectrum_job_queue ∷ []

-- Those of `td_renderer_main` and of `spectrum_renderer_main`.
pub td_renderer_parameters : List Handle
td_renderer_parameters = td_job_queue ∷ result_queue ∷ running ∷ []

pub spectrum_renderer_parameters : List Handle
spectrum_renderer_parameters = spectrum_job_queue ∷ result_queue ∷ running ∷ []

pub parameters_of : WorkerName → List Handle
unfolding processor_parameters td_renderer_parameters spectrum_renderer_parameters
parameters_of processor = processor_parameters
parameters_of td_renderer = td_renderer_parameters
parameters_of spectrum_renderer = spectrum_renderer_parameters

pub data Thread : Type 0 where
  mock_injector rx_loop worker_watchdog : Thread
  -- whether it has an annotator
  drain_results : Bool → Thread

pub data Step : Type 0 where
  sets_running sets_rx_connected starts_annotator serves cleans_up_shm : Step
  starts_process : WorkerName → List Handle → Step
  starts_thread : Thread → Step

-- `state.workers`, in order.
pub workers : List WorkerName
workers = processor ∷ td_renderer ∷ spectrum_renderer ∷ []

-- The processes come first, then the threads.
pub starts_radio : (hitl_annotate : Bool) → List Step
unfolding args_of workers
starts_radio hitl_annotate =
    map (λ w. starts_process w (args_of w)) workers
    ++ (starts_thread rx_loop
        ∷ ((if hitl_annotate then starts_annotator ∷ [] else [])
            ++ (starts_thread (drain_results hitl_annotate) ∷ starts_thread worker_watchdog ∷ [])))

pub main_steps : (mock_mode hitl_annotate : Bool) → List Step
unfolding starts_radio
main_steps mock_mode hitl_annotate =
    sets_running
    ∷ ((if mock_mode
          then sets_rx_connected ∷ starts_thread mock_injector ∷ []
          else starts_radio hitl_annotate)
        ++ (serves ∷ cleans_up_shm ∷ []))

-- No process is started once a thread or the annotator was, and each has its parameters.
abbrev pub ForksFirst : (threads : Bool) → List Step → Type 0
ForksFirst threads [] = Unit
ForksFirst threads (starts_process w args ∷ steps) =
    (threads ≡ false) × (args ≡ parameters_of w) × ForksFirst threads steps
ForksFirst threads (starts_thread t ∷ steps) = ForksFirst true steps
ForksFirst threads (starts_annotator ∷ steps) = ForksFirst true steps
ForksFirst threads (_ ∷ steps) = ForksFirst threads steps

-- In either mode the processes are started before any thread, with the arguments that their entry
-- points name, in order.
pub main_steps-ForksFirst :
    (mock_mode hitl_annotate : Bool) → ForksFirst false (main_steps mock_mode hitl_annotate)
unfolding main_steps parameters_of
main_steps-ForksFirst true hitl_annotate = tt
main_steps-ForksFirst false true = (refl, refl, (refl, refl, (refl, refl, tt)))
main_steps-ForksFirst false false = (refl, refl, (refl, refl, (refl, refl, tt)))

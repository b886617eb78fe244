-- ===== src/Lib.antt =====
-- The smart clock of the folder exsamene/, firmware for the Zephyr kernel in C, and the proxy
-- python_proxi/proxi.py that it asks for news, weather and place.
--
-- Alarm (exsamene/src/alarm.c): the static variables as one record, a function for each function of
-- the file, and a round of the alarm thread's loop. Its children hold the invariant (Invariant), the
-- clock as a counter (Clock), a machine of four phases that the round implements (Phase), the
-- durations of the phases (Timing), the wait for the alarm's time (Waiting), the buttons' edges
-- (Buttons), the speaker's thread (Speaker) and the calls of the start (Pins).
-- Calendar (exsamene/src/screen.c): epoch_to_datetime, the names of days and months, and the loop of
-- screen_show_datetime that reads the epoch. Spec has the calendar as closed formulas of its
-- own.
-- Proxy (python_proxi/proxi.py): the bodies of the replies, as json.dumps writes them, and
-- how the titles of the news are collected (Titles), against what the answer holds (Answer,
-- Found, Distinct); Dump writes any value. Escapes, Search and Members say where
-- strstr finds a quoted key in such a body.
-- Info (exsamene/src/network_config.c, network_config.h): parse_info and the data that it fills.
-- News (exsamene/src/networking_config_news.c): parse_news_titles and the data that it fills.
-- Lcd (exsamene/src/rgb_lcd.c, rgb_lcd.h): the driver of the display, over i2c_write as an argument.
-- Panel is an interface to what the display makes of the bytes, and Sample a panel of that kind.
-- Screen (exsamene/src/screen.c, and the texts of alarm.c): the two lines of every screen, the calls
-- that show them (Draw), and the screen's thread.
-- Net (exsamene/src/network_config.c, networking_config_news.c): the HTTP requests and the threads that
-- repeat them. What the sockets return is an argument, a list of events for the loop that receives;
-- behind the list the loop runs out of time, so every run ends. Its children hold the two requests
-- (InfoRequest, NewsRequest), the buffer's end (Bounds), the order of the calls (Calls), and whole
-- responses in pieces (Cut, Digits, Response, Whole, Fetched).
-- Syscalls (exsamene/build/zephyr/include/generated/zephyr/syscalls/, syscall_list.h and
-- syscall_dispatch.c): the build's wrappers of the kernel's calls that the program comes to, by the trap
-- and directly, their numbers and the table of the handlers. Handlers says what the kernel documents
-- of the other side, Same says that a call loses nothing on either way, Trace lists the calls of a
-- program that takes no trap, as this one is built, and Sample is a kernel.
-- Main (exsamene/src/main.c): the threads with their stacks and priorities (Priority), and `main`
-- (Start). What `alarm_gpio_init` calls is in Alarm/Pins.
-- Locks (exsamene/src/network_config.c, networking_config_news.c, screen.c): the mutexes that three of
-- the threads share, their order (Order), and that the threads go on (Progress).
-- Delivery: the parts together, from a response to the date on the display.
-- TemHum (exsamene/src/tem_hum.c, and the thread of main.c that calls it): the sensor's last values.
-- Wifi (exsamene/src/wifi_connect.c): the event handler and the semaphore for which the three network
-- threads wait. Semaphore is an interface to the kernel's semaphore, and Counting one of that kind,
-- which View lets stand for all; Queue and Tokens account for each time that it is given, First and
-- Stuck say what the queue and the flag are like when the address comes and behind it, and Race and
-- TooEarly which threads get the semaphore then.
-- Base: the shared names, tests, lists, integers, and the C library's functions on strings.
--
-- The parts meet in the data: the proxy's reply is what parse_info and parse_news_titles read, and
-- the epoch that parse_info stores is what the screen's loop reads.
--
-- Numbers are natural numbers where the code's variable only counts up from 0 and is bounded by an
-- invariant, and integers (ℤ) where it may be negative. A `long` has 32 bits on the board's
-- processor. A string is the list of its bytes in front of the NUL. Loops are counted where the
-- code counts; the loop of parse_news_titles takes fuel, one round more than the response has
-- bytes, and its theorem of termination says that this is enough. strstr, snprintf and the decimal
-- digits of a number are the standard library's, as its documents describe them.
--
-- The kernel is not modelled: what the pins, the sensor and the sockets give is an argument, the bus
-- and the semaphore are interfaces, and what a function does under its mutex is one step. Printing to
-- the console, but for that of alarm_gpio_init, and the lengths of the pauses, but for the speaker's,
-- are left out.
--
-- Not modelled: the other generated headers of the build (the devicetree, the configuration, the
-- wrappers of calls that the program does not make), which hold no behaviour of the program; in
-- proxi.py the calls of the web services and of Flask; the parameters of the request to connect.
pub mod Base
pub mod Alarm
pub mod Calendar
pub mod Proxy
pub mod Info
pub mod News
pub mod Lcd
pub mod Screen
pub mod Net
pub mod TemHum
pub mod Wifi
pub mod Syscalls
pub mod Main
pub mod Delivery
pub mod Locks
